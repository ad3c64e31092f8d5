-- ===== src/Plugins/Logs.antt =====
-- The log of a plugin is the tail of what it wrote.
use shiv.Prelude.{
  ltb, if◌then◌else◌, Bool-cases, length, take, drop, take-append-drop, length-append, length-drop,
  drop-append, drop_add, ℕ, ◌-◌, ◌≤◌, ◌≡◌, refl, sym, ap, ◌∙◌, inl, inr, Bool, true, false, List,
  [], ◌∷◌, ◌++◌, append-nil, append_assoc, arith,
}
use shiv.Text.{Bytes, same}
use shiv.Text.Equality.{same_iff}
use shiv.Events.Event.{PluginLogEvent}
use shiv.Plugins.{
  max_plugin_log_lines, PluginLogs, plugin_logs, set_logs, keep_last, observe_plugin_log,
}

plugin_logs-set_logs :
    (name other : Bytes) (lines : List Bytes) (logs : PluginLogs)
    → plugin_logs other (set_logs name lines logs)
      ≡ (if same name other then lines else plugin_logs other logs)
unfolding plugin_logs set_logs
plugin_logs-set_logs name other lines [] = refl
plugin_logs-set_logs name other lines ((n, old) ∷ logs) = ground (
  arith,
  plugin_logs-set_logs name other lines logs,
  same_iff n name,
  same_iff n other,
  same_iff name other,
)

-- The state after several log events, the first one first.
unfoldable pub observe_logs : List PluginLogEvent → PluginLogs → PluginLogs
observe_logs [] logs = logs
observe_logs (e ∷ es) logs = observe_logs es (observe_plugin_log e logs)

-- The messages of one plugin.
abbrev pub messages : Bytes → List PluginLogEvent → List Bytes
messages name [] = []
messages name (e ∷ es) = if same e.name name then e.message ∷ messages name es else messages name es

keep_last_lem : (max : ℕ) (xs : List Bytes) → keep_last max xs ≡ drop (length xs - max) xs
unfolding keep_last
keep_last_lem max xs = elim (Bool-cases (ltb max (length xs))) [
  | inl e ↦ ground arith
  | inr e ↦ let z : length xs - max ≡ 0 = ground arith in rw e (rw z refl)
]

keep_last-drop :
    (max k : ℕ) (xs : List Bytes)
    → k ≤ length xs - max
    → keep_last max (drop k xs) ≡ keep_last max xs
keep_last-drop max k xs h =
    keep_last_lem max (drop k xs)
    ∙ drop_add k (length (drop k xs) - max) xs
    ∙ ap (λ m. drop m xs) (omega (arith, length-drop k xs, h))
    ∙ sym (keep_last_lem max xs)

keep_last_parts :
    (max : ℕ) (xs : List Bytes)
    → (older : List Bytes) × (xs ≡ older ++ keep_last max xs)
      × (length (keep_last max xs) ≡ (if ltb max (length xs) then max else length xs))
keep_last_parts max xs = (
  take (length xs - max) xs,
  sym (take-append-drop (length xs - max) xs)
      ∙ ap (λ ys. take (length xs - max) xs ++ ys) (sym (keep_last_lem max xs)),
  ap length (keep_last_lem max xs) ∙ ground (arith, length-drop (length xs - max) xs),
)

-- Keeping the last lines before more are added is the same as keeping them after.
keep_last-keep_last :
    (max : ℕ) (xs ys : List Bytes)
    → keep_last max (keep_last max xs ++ ys) ≡ keep_last max (xs ++ ys)
keep_last-keep_last max xs ys =
    let k : ℕ = length xs - max in
    ap (λ zs. keep_last max (zs ++ ys)) (keep_last_lem max xs)
    ∙ ap (keep_last max) (sym (drop-append k xs ys (omega arith)))
    ∙ keep_last-drop max k (xs ++ ys) (omega (arith, length-append xs ys))

observe_plugin_log-keep_last :
    (e : PluginLogEvent) (name : Bytes) (logs : PluginLogs) (seen : List Bytes)
    → plugin_logs name logs ≡ keep_last max_plugin_log_lines seen
    → plugin_logs name (observe_plugin_log e logs)
      ≡ keep_last max_plugin_log_lines (seen ++ (if same e.name name then e.message ∷ [] else []))
unfolding observe_plugin_log
observe_plugin_log-keep_last e name logs seen h = ground (
  arith,
  plugin_logs-set_logs e.name name
      (keep_last max_plugin_log_lines (plugin_logs e.name logs ++ e.message ∷ [])) logs,
  same_iff e.name name,
  keep_last-keep_last max_plugin_log_lines seen (e.message ∷ []),
  append-nil seen,
)

add_message :
    (seen : List Bytes) (m : Bytes) (ms : List Bytes) (b : Bool)
    → (seen ++ (if b then m ∷ [] else [])) ++ ms ≡ seen ++ (if b then m ∷ ms else ms)
add_message seen m ms true = append_assoc seen (m ∷ []) ms
add_message seen m ms false = append_assoc seen [] ms

observe_logs-keep_last :
    (es : List PluginLogEvent) (name : Bytes) (logs : PluginLogs) (seen : List Bytes)
    → plugin_logs name logs ≡ keep_last max_plugin_log_lines seen
    → plugin_logs name (observe_logs es logs)
      ≡ keep_last max_plugin_log_lines (seen ++ messages name es)
unfolding observe_logs
observe_logs-keep_last [] name logs seen h = rw append-nil h
observe_logs-keep_last (e ∷ es) name logs seen h =
    observe_logs-keep_last es name (observe_plugin_log e logs) _
      (observe_plugin_log-keep_last e name logs seen h)
    ∙ ap (keep_last max_plugin_log_lines)
        (add_message seen e.message (messages name es) (same e.name name))

-- After any log events, the lines of a plugin are the end of the messages that it wrote, in their
-- order: all of them, or the last 500 where there are more, whatever the other plugins wrote in
-- between.
pub plugin_logs-observe_logs :
    (es : List PluginLogEvent) (name : Bytes)
    → (older : List Bytes) × (messages name es ≡ older ++ plugin_logs name (observe_logs es []))
      × (length (plugin_logs name (observe_logs es []))
          ≡ (if ltb 500 (length (messages name es)) then 500 else length (messages name es)))
plugin_logs-observe_logs es name =
    rw (observe_logs-keep_last es name [] [] (unfold plugin_logs keep_last in refl))
      (keep_last_parts 500 (messages name es))
