-- ===== src/Kexts/Info.antt =====
-- KextInfo: Scripts/datasets/kext_data.py. `checked` is kept apart, since it changes; the download
-- links, which only the download reads, are left out.
use freaky_ocs.Base.{String, Bool, Option, none, some, List}
use freaky_ocs.Darwin.{Version, get_latest_darwin_version, get_lowest_darwin_version}
use freaky_ocs.Base.{true}

pub record KextInfo : Type 0 where
  pub name : String
  pub description : String
  pub category : String
  pub required : Bool
  pub min_darwin_version : Version
  pub max_darwin_version : Version
  pub requires_kexts : List String
  pub conflict_group_id : Option String
  pub github_repo : Option (String × String)

unfoldable pub kext_info :
    String
    → String
    → String
    → Bool
    → Option Version
    → Option Version
    → List String
    → Option (String × String)
    → KextInfo
unfolding get_latest_darwin_version get_lowest_darwin_version
kext_info name description category required min max requires repo = record {
  name = name;
  description = description;
  category = category;
  required = required;
  min_darwin_version = elim min [ none ↦ get_lowest_darwin_version | some v ↦ v ];
  max_darwin_version = elim max [ none ↦ get_latest_darwin_version true | some v ↦ v ];
  requires_kexts = requires;
  conflict_group_id = none;
  github_repo = repo;
}

abbrev pub with_conflicts : String → KextInfo → KextInfo
with_conflicts group k = record k { conflict_group_id = some group }
