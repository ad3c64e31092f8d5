-- ===== src/Text/Sort.antt =====
-- `sort.Strings` and `slices.Sort` on texts, and `net.JoinHostPort`.
use shiv.Prelude.{if◌then◌else◌, List, [], ◌∷◌, ◌++◌}
use shiv.Text.{Bytes, codes, less, contains_byte}

insert_sorted : Bytes → List Bytes → List Bytes
insert_sorted k [] = k ∷ []
insert_sorted k (j ∷ js) =
    let later = j ∷ insert_sorted k js in if less j k then later else k ∷ j ∷ js

unfoldable pub sort : List Bytes → List Bytes
unfolding insert_sorted less
sort [] = []
sort (k ∷ ks) = insert_sorted k (sort ks)

-- A host with a colon is put in brackets.
unfoldable pub join_host_port : Bytes → Bytes → Bytes
unfolding contains_byte
join_host_port host port =
    if contains_byte b':' host
    then codes "[" ++ (host ++ (codes "]:" ++ port))
    else host ++ b':' ∷ port
