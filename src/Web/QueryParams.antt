-- ===== src/Web/QueryParams.antt =====
-- app/web/query_params.py: the addresses of a page with some of its parameters changed. `urlencode` stands
-- for the library's, of the pairs in their order.
use career_spyder.Prelude.{
  String, ◌==◌, not, ◌&&◌, none, some, List, [], ◌∷◌, filter, find, elem, if◌then◌else◌, nonempty,
}
use career_spyder.Html.{cat}

abbrev pub Pairs : Type 0
Pairs = List (String × String)

-- `dict(pairs)`: a key stands where it first occurs, with its last value.
unfoldable pub set_key : String → String → Pairs → Pairs
set_key key value [] = (key, value) ∷ []
set_key key value (p ∷ pairs) =
    let rest = set_key key value pairs in if p.0 == key then (key, value) ∷ pairs else p ∷ rest

unfoldable pub dict_from : Pairs → Pairs → Pairs
unfolding set_key
dict_from d [] = d
dict_from d (p ∷ pairs) = dict_from (set_key p.0 p.1 d) pairs

-- `params.get(key, "")`
unfoldable pub param : String → Pairs → String
param key d = elim (find (λ (p : String × String). p.0 == key) d) [ none ↦ "" | some p ↦ p.1 ]

-- One override of `query_url`: an empty value takes the key away.
unfoldable pub override : Pairs → String × String → Pairs
unfolding set_key
override d (key, value) =
    if nonempty value
    then set_key key value d
    else filter (λ (p : String × String). not (p.0 == key)) d

unfoldable pub override_all : Pairs → Pairs → Pairs
unfolding override
override_all d [] = d
override_all d (o ∷ overrides) = override_all (override d o) overrides

module _ (urlencode : Pairs → String) where
  unfoldable pub at_path : String → Pairs → String
  at_path path pairs =
      let query = urlencode pairs in if nonempty query then cat (path ∷ "?" ∷ query ∷ []) else path

  unfoldable pub query_url : Pairs → String → Pairs → String
  unfolding override_all dict_from at_path
  query_url pairs path overrides = at_path path (override_all (dict_from [] pairs) overrides)

  unfoldable pub remove_filter_url : Pairs → String → List String → String
  unfolding at_path
  remove_filter_url pairs path keys =
      at_path path
        (filter (λ (p : String × String). not (elem p.0 keys) && not (p.0 == "page")) pairs)

  unfoldable pub remove_filter_value_url : Pairs → (path key value : String) → String
  unfolding at_path
  remove_filter_value_url pairs path key value = at_path path (
      filter (λ (p : String × String). not (p.0 == "page") && not (p.0 == key && p.1 == value))
        pairs)

  unfoldable pub sort_url : Pairs → (path field : String) → String
  unfolding query_url param dict_from
  sort_url pairs path field =
      let params = dict_from [] pairs in
      let new_dir =
        if param "sort" params == field
        then (if param "dir" params == "desc" then "asc" else "desc")
        else "asc" in
      query_url pairs path (("sort", field) ∷ ("dir", new_dir) ∷ ("page", "") ∷ [])
