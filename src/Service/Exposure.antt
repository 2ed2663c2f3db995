-- ===== src/Service/Exposure.antt =====
-- internal/service/expose.go: `mergeRow`, `better` and `rank`, with `SortedSet` of
-- internal/model/model.go. `at` holds the index of each endpoint's row, so a look-up in it is a search
-- of the rows. `D` are the fields of a row that merging takes over whole.
pub mod Endpoints
use swinv.Prelude.{
  ℕ, suc, ◌+◌, Bool, true, false, not, ◌&&◌, ◌||◌, List, [], ◌∷◌, ◌++◌, Bytes, bytes_eq, ltb, ◌==◌,
  if◌then◌else◌, is_empty, length,
}
use swinv.Model.Sets.{sorted_set}

pub data Confidence : Type 0 where
  high : Confidence
  medium : Confidence
  low : Confidence

pub record Exposure (D : Type 0) : Type 0 where
  pub address : Bytes
  pub port : ℕ
  pub protocol : Bytes
  pub confidence : Confidence
  pub components : List Bytes
  pub os_component : Bool
  pub processes : ℕ
  pub detail : D

abbrev pub rank : Confidence → ℕ
rank high = 3
rank medium = 2
rank low = 1

module _ {D : Type 0} where
  unfoldable pub is_better : Exposure D → Exposure D → Bool
  is_better a b =
      if not (rank a.confidence == rank b.confidence)
      then ltb (rank b.confidence) (rank a.confidence)
      else ltb (length b.components) (length a.components)

  unfoldable pub same_endpoint : Exposure D → Exposure D → Bool
  same_endpoint a b =
      bytes_eq a.address b.address && (a.port == b.port) && bytes_eq a.protocol b.protocol

  unfoldable pub folded : Exposure D → Exposure D → Exposure D
  unfolding is_better sorted_set
  folded existing row =
      let merged = if is_better row existing then row else existing in
      record merged {
        processes = existing.processes + 1;
        components = sorted_set (existing.components ++ row.components);
        os_component = existing.os_component && row.os_component;
      }

  unfoldable pub merge_row : List (Exposure D) → Exposure D → List (Exposure D)
  unfolding same_endpoint folded
  merge_row [] row = record row { processes = 1 } ∷ []
  merge_row (x ∷ xs) row =
      let later = merge_row xs row in if same_endpoint row x then folded x row ∷ xs else x ∷ later

  -- Every row that `Expose` produces, merged in turn.
  unfoldable pub merge_rows : List (Exposure D) → List (Exposure D) → List (Exposure D)
  unfolding merge_row
  merge_rows out [] = out
  merge_rows out (row ∷ rows) = merge_rows (merge_row out row) rows
