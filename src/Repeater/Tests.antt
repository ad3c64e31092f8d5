-- ===== src/Repeater/Tests.antt =====
-- A table with one tab.
use shiv.Prelude.{◌≡◌, true, false, some, [], ◌∷◌}
use shiv.Prelude.Int.{pos}
use shiv.Text.{codes}
use shiv.Repeater.{
  type_or_http, max_position, save_repeater_tab, fill_types, all_repeater_tabs, RepeaterTab,
  TabTable,
}
use shiv.Repeater.Order.{all_repeater_tabs-save_repeater_tab}

abbrev first : RepeaterTab
first = record {
  id = 1;
  name = codes "one";
  host = codes "a.test";
  port = pos 443;
  tls = true;
  tab_type = [];
  raw_request = codes "GET / HTTP/1.1";
  last_response = [];
  position = 1;
}

abbrev one_tab : TabTable
one_tab = record { rows = first ∷ []; next_id = 2 }

all_repeater_tabs-save_repeater_tab_example :
    all_repeater_tabs false
      (save_repeater_tab false (record first { tab_type = codes "websocket" }) one_tab).1
    ≡ some (
        record first { tab_type = codes "http" }
        ∷ record first { id = 2; tab_type = codes "websocket"; position = 2 }
        ∷ [])
unfolding fill_types type_or_http max_position
all_repeater_tabs-save_repeater_tab_example =
    all_repeater_tabs-save_repeater_tab (record first { tab_type = codes "websocket" }) one_tab
      (tt, tt)
