-- ===== src/Database.antt =====
-- The repository that others are built on, internal/pkg/database/repository.go, over gorm, which is a
-- parameter: its statements on a table with rows in `T`, values in `V` and states in `S`.
use Prim.Native.String.{◌++◌ as append}
use my_go.Common.{
  ℕ, ℤ, pos, ltb_ℤ, ◌==◌, String, List, [], ◌∷◌, Option, none, some, Bool, if◌then◌else◌, Fallible,
  ok, err,
}

pub data DbError : Type 0 where
  record_not_found : DbError
  db_error : String → DbError

-- `id = ?`, or a field of a map of conditions, `field = ?`.
pub data Condition (V : Type 0) : Type 0 where
  id_is : ℕ → Condition V
  field_is : String → V → Condition V

-- The statements, on all rows that meet the conditions. An update is by an entity or by fields; both
-- answer how many rows they changed, as a deletion does. A limit or an offset of none is not set.
pub record Table (T V S : Type 0) : Type 0 where
  pub create : List T → S → S × Option DbError
  pub update_entity : List (Condition V) → T → S → S × Fallible DbError ℕ
  pub update_fields : List (Condition V) → List (String × V) → S → S × Fallible DbError ℕ
  pub first : List (Condition V) → S → Fallible DbError T
  pub find : List (Condition V) → Option ℤ → Option ℤ → S → Fallible DbError (List T)
  pub delete : List (Condition V) → S → S × Fallible DbError ℕ
  pub count : List (Condition V) → S → Fallible DbError ℤ

-- `fmt.Errorf` with `%w`.
abbrev wrapped : String → DbError → DbError
wrapped message record_not_found = db_error (append message "record not found")
wrapped message (db_error e) = db_error (append message e)

abbrev wrapped_if : String → Option DbError → Option DbError
wrapped_if message none = none
wrapped_if message (some e) = some (wrapped message e)

-- An error, or no row that was changed.
abbrev changed_some : String → Fallible DbError ℕ → Option DbError
changed_some message (err e) = some (wrapped message e)
changed_some message (ok n) = if n == 0 then some record_not_found else none

abbrev failed_only : String → Fallible DbError ℕ → Option DbError
failed_only message (err e) = some (wrapped message e)
failed_only message (ok n) = none

-- A missing row keeps its error.
abbrev got : {A : Type 0} → String → Fallible DbError A → Fallible DbError A
got message (ok a) = ok a
got message (err record_not_found) = err record_not_found
got message (err (db_error e)) = err (wrapped message (db_error e))

abbrev wrapped_result : {A : Type 0} → String → Fallible DbError A → Fallible DbError A
wrapped_result message (ok a) = ok a
wrapped_result message (err e) = err (wrapped message e)

abbrev if_positive : ℤ → Option ℤ
if_positive n = if ltb_ℤ (pos 0) n then some n else none

-- The conditions of a map; Go leaves their order open, and the statements do not depend on it.
unfoldable pub conditions_of : {V : Type 0} → List (String × V) → List (Condition V)
conditions_of [] = []
conditions_of ((field, v) ∷ rest) = field_is field v ∷ conditions_of rest

module _ {T V S : Type 0} (table : Table T V S) where
  abbrev updated : S × Fallible DbError ℕ → String → S × Option DbError
  updated (s, r) message = (s, changed_some message r)

  unfoldable pub insert_one : T → S → S × Option DbError
  insert_one entity s =
      let (s', e) = table.create (entity ∷ []) s in (s', wrapped_if "failed to insert entity: " e)

  unfoldable pub insert_batch : List T → S → S × Option DbError
  insert_batch [] s = (s, none)
  insert_batch (entity ∷ entities) s =
      let (s', e) = table.create (entity ∷ entities) s in
      (s', wrapped_if "failed to insert batch: " e)

  unfoldable pub update_by_id : ℕ → T → S → S × Option DbError
  update_by_id id entity s =
      updated (table.update_entity (id_is id ∷ []) entity s) "failed to update entity: "

  unfoldable pub update_by_field : String → V → List (String × V) → S → S × Option DbError
  update_by_field field v updates s =
      updated (table.update_fields (field_is field v ∷ []) updates s) "failed to update entity: "

  unfoldable pub update_fields_of : ℕ → List (String × V) → S → S × Option DbError
  update_fields_of id updates s =
      updated (table.update_fields (id_is id ∷ []) updates s) "failed to update fields: "

  unfoldable pub get_by_id : ℕ → S → Fallible DbError T
  get_by_id id s = got "failed to get entity: " (table.first (id_is id ∷ []) s)

  unfoldable pub get_by_field : String → V → S → Fallible DbError T
  get_by_field field v s = got "failed to get entity: " (table.first (field_is field v ∷ []) s)

  unfoldable pub get_all : ℤ → ℤ → S → Fallible DbError (List T)
  get_all limit offset s =
      wrapped_result "failed to get all entities: "
        (table.find [] (if_positive limit) (if_positive offset) s)

  unfoldable pub get_where : List (String × V) → ℤ → ℤ → S → Fallible DbError (List T)
  get_where conditions limit offset s =
      wrapped_result "failed to get entities: "
        (table.find (conditions_of conditions) (if_positive limit) (if_positive offset) s)

  unfoldable pub delete_by_id : ℕ → S → S × Option DbError
  delete_by_id id s = updated (table.delete (id_is id ∷ []) s) "failed to delete entity: "

  abbrev deleted : S × Fallible DbError ℕ → S × Option DbError
  deleted (s, r) = (s, failed_only "failed to delete entities: " r)

  unfoldable pub delete_by_field : String → V → S → S × Option DbError
  delete_by_field field v s = deleted (table.delete (field_is field v ∷ []) s)

  unfoldable pub delete_where : List (String × V) → S → S × Option DbError
  delete_where conditions s = deleted (table.delete (conditions_of conditions) s)

  unfoldable pub count_where : List (String × V) → S → Fallible DbError ℤ
  count_where conditions s =
      wrapped_result "failed to count entities: " (table.count (conditions_of conditions) s)

  abbrev is_positive : Fallible DbError ℤ → Fallible DbError Bool
  is_positive (err e) = err e
  is_positive (ok n) = ok (ltb_ℤ (pos 0) n)

  unfoldable pub exists : List (String × V) → S → Fallible DbError Bool
  exists conditions s = is_positive (count_where conditions s)
