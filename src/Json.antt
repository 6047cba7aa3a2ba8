-- ===== src/Json.antt =====
-- JSON values: the variants that crates/core/src/hash.rs matches on, and the accessors of a value
-- (`get`, `as_object`, `as_array`, `as_str`, `as_u64`). An object is its entries in key order.
pub mod Canonical
use native.Mathlib.Decide.{ℕ_discrete}
use worktree_merge_consensus.Prelude.{
  ℕ, Bool, true, false, String, Option, none, some, List, [], ◌∷◌, if◌then◌else◌, ◌==◌, string_eq,
  String-discrete,
}

-- A number is unsigned, negative, or a float, of which only the bits are kept.
pub data Number : Type 0 where
  pos_int : ℕ → Number
  neg_int : ℕ → Number
  float : ℕ → Number

mutual
  pub data Value : Type 0 where
    null : Value
    boolean : Bool → Value
    number : Number → Value
    string : String → Value
    array : Items → Value
    object : Fields → Value

  pub data Items : Type 0 where
    nil : Items
    cons : Value → Items → Items

  pub data Fields : Type 0 where
    end : Fields
    field : String → Value → Fields → Fields

unfoldable pub elements : Items → List Value
elements nil = []
elements (cons v vs) = v ∷ elements vs

unfoldable pub from_list : List Value → Items
from_list [] = nil
from_list (v ∷ vs) = cons v (from_list vs)

unfoldable pub get_field : String → Fields → Option Value
get_field k end = none
get_field k (field j v fs) = if j == k then some v else get_field k fs

unfoldable pub as_object : Value → Option Fields
as_object (object fs) = some fs
as_object _ = none

unfoldable pub is_object : Value → Bool
is_object (object fs) = true
is_object _ = false

unfoldable pub as_array : Value → Option (List Value)
unfolding elements
as_array (array vs) = some (elements vs)
as_array _ = none

unfoldable pub as_str : Value → Option String
as_str (string s) = some s
as_str _ = none

unfoldable pub as_u64 : Value → Option ℕ
as_u64 (number (pos_int n)) = some n
as_u64 _ = none

unfoldable pub get : Value → String → Option Value
unfolding get_field
get (object fs) k = get_field k fs
get _ k = none

unfoldable pub Number-discrete : Discrete Number
Number-discrete = hlevel ℕ_discrete

unfoldable pub Value-discrete : Discrete Value
Value-discrete = hlevel (Number-discrete, String-discrete)
