-- ===== src/Core/Engine/Listing.antt =====
-- rstmdb-core/src/engine.rs: the listings of machines and instances.
use rstmdb.Base.{
  ℕ, String, Option, none, some, List, [], ◌∷◌, ◌++◌, ◌==◌, leb, string_key, if◌then◌else◌, length,
}
use rstmdb.Base.Dict.{Dict, get, insert}

-- `sort`, of the versions
unfoldable pub insert_ordered : ℕ → List ℕ → List ℕ
insert_ordered v [] = v ∷ []
insert_ordered v (w ∷ ws) =
    let rest = insert_ordered v ws in if leb v w then v ∷ (w ∷ ws) else w ∷ rest

unfoldable pub sort : List ℕ → List ℕ
unfolding insert_ordered
sort [] = []
sort (v ∷ vs) = insert_ordered v (sort vs)

unfoldable pub or_no_versions : Option (List ℕ) → List ℕ
or_no_versions none = []
or_no_versions (some vs) = vs

unfoldable pub sort_all : Dict String (List ℕ) → Dict String (List ℕ)
unfolding sort
sort_all [] = []
sort_all ((name, vs) ∷ result) = (name, sort vs) ∷ sort_all result

module _ {D : Type 0} where
  -- The versions of a machine, in the order of the map
  unfoldable pub versions_of : Dict (String × ℕ) D → String → List ℕ
  versions_of [] name = []
  versions_of ((k, d) ∷ definitions) name =
      let rest = versions_of definitions name in if k.0 == name then k.1 ∷ rest else rest

  unfoldable pub get_machine_versions : Dict (String × ℕ) D → String → List ℕ
  unfolding sort versions_of
  get_machine_versions definitions name = sort (versions_of definitions name)

  -- The first loop of `list_machines`
  unfoldable pub group_versions : Dict (String × ℕ) D → Dict String (List ℕ) → Dict String (List ℕ)
  unfolding or_no_versions
  group_versions [] result = result
  group_versions ((k, d) ∷ definitions) result =
      group_versions definitions (insert result k.0 (or_no_versions (get result k.0) ++ (k.1 ∷ [])))

  unfoldable pub list_machines : Dict (String × ℕ) D → Dict String (List ℕ)
  unfolding group_versions sort_all
  list_machines definitions = sort_all (group_versions definitions [])

unfoldable pub list_instance_ids : {I : Type 0} → Dict String I → List String
list_instance_ids [] = []
list_instance_ids ((id, i) ∷ instances) = id ∷ list_instance_ids instances

unfoldable pub instance_count : {I : Type 0} → Dict String I → ℕ
instance_count instances = length instances
