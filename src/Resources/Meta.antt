-- ===== src/Resources/Meta.antt =====
-- Object metadata, conditions and results. Of metav1.ObjectMeta the code reads and writes these
-- fields; of the deletion timestamp it asks only whether it is set. Timestamps of conditions are
-- left out.
use cluster_api_provider_ovh.Prelude.{ℕ, Bool, List, [], ◌∷◌, Text, ◌==◌, if◌then◌else◌}

-- A `map[string]string` as a list of pairs.
abbrev pub TextMap : Type 0
TextMap = List (Text × Text)

-- `m[key]`: the empty text for a key that is not there.
unfoldable pub lookup_text : Text → TextMap → Text
lookup_text key [] = []
lookup_text key ((k, v) ∷ m) = if k == key then v else lookup_text key m

-- `m[key] = value`
unfoldable pub insert_text : Text → Text → TextMap → TextMap
insert_text key value [] = (key, value) ∷ []
insert_text key value ((k, v) ∷ m) =
    if k == key then (key, value) ∷ m else (k, v) ∷ insert_text key value m

-- `delete(m, key)`
unfoldable pub erase_text : Text → TextMap → TextMap
erase_text key [] = []
erase_text key ((k, v) ∷ m) =
    let rest = erase_text key m in if k == key then rest else (k, v) ∷ rest

pub record ObjectMeta : Type 0 where
  pub namespace : Text
  pub name : Text
  pub finalizers : List Text
  pub annotations : TextMap
  pub deleting : Bool  -- the deletion timestamp is set

pub data ConditionStatus : Type 0 where
  condition_true condition_false : ConditionStatus

pub record Condition : Type 0 where
  pub kind : Text
  pub status : ConditionStatus
  pub reason : Text
  pub message : Text

-- `ctrl.Result`: the delay before the next reconciliation, in seconds; 0 asks for none.
pub record Result : Type 0 where
  pub requeue_after : ℕ

abbrev pub no_requeue : Result
no_requeue = record { requeue_after = 0 }

abbrev pub requeue : ℕ → Result
requeue seconds = record { requeue_after = seconds }
