-- ===== src/Http/Header/Laws.antt =====
-- The map laws of headers, in the form that needs no side condition.
use shiv.Prelude.{◌≡◌, arith, none, some, List, [], ◌∷◌, if◌then◌else◌}
use shiv.Text.{Bytes, same}
use shiv.Text.Equality.{same_iff}
use shiv.Http.Header.{Header, values, remove, put}

pub values-remove :
    (h : Header) (k j : Bytes) → values (remove h k) j ≡ (if same k j then none else values h j)
unfolding values remove
values-remove [] k j = ground arith
values-remove ((i, vs) ∷ h) k j =
    ground (arith, values-remove h k j, same_iff i k, same_iff i j, same_iff k j)

pub values-put :
    (h : Header) (k : Bytes) (vs : List Bytes) (j : Bytes)
    → values (put h k vs) j ≡ (if same k j then some vs else values h j)
unfolding values put
values-put h k vs j = ground (arith, values-remove h k j)

pub ruleset header_laws = (values-remove, values-put)
