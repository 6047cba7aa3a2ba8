-- ===== src/Json/Canonical.antt =====
-- crates/core/src/hash.rs: the canonical form of a JSON value, every object's entries in key order,
-- and its hash. The digest of the canonical form is a parameter.
use Prim.Native.String.{compare}
use text.Mathlib.Text.{is_lt, is_eq}
use worktree_merge_consensus.Prelude.{Bool, String, if◌then◌else◌}
use worktree_merge_consensus.Json.{
  Value, null, boolean, number, string, array, object, Items, nil, cons, Fields, end, field,
}

-- The order of Rust's strings: by bytes, which is by code points.
abbrev pub str_ltb : String → String → Bool
str_ltb s t = is_lt (compare s t)

-- `sort_unstable_by_key`: one entry put in front of the first that has no smaller key.
unfoldable pub place : String → Value → Fields → Fields
place k v end = field k v end
place k v (field j w fs) =
    if str_ltb j k then field j w (place k v fs) else field k v (field j w fs)

unfoldable pub sort_entries : Fields → Fields
unfolding place
sort_entries end = end
sort_entries (field k v fs) = place k v (sort_entries fs)

-- `Map::insert`: the map is in key order, and an equal key is overwritten.
unfoldable pub insert : String → Value → Fields → Fields
insert k v end = field k v end
insert k v (field j w fs) =
    if str_ltb j k
    then field j w (insert k v fs)
    else if is_eq (compare j k)
    then field k v fs
    else field k v (field j w fs)

unfoldable pub insert_all : Fields → Fields → Fields
unfolding insert
insert_all end acc = acc
insert_all (field k v fs) acc = insert_all fs (insert k v acc)

unfoldable pub rebuild : Fields → Fields
unfolding sort_entries insert_all
rebuild fs = insert_all (sort_entries fs) end

unfoldable mutual
  pub canonicalize : Value → Value
  canonicalize null = null
  canonicalize (boolean b) = boolean b
  canonicalize (number n) = number n
  canonicalize (string s) = string s
  canonicalize (array vs) = array (canonical_items vs)
  canonicalize (object fs) = object (rebuild (canonical_fields fs))

  pub canonical_items : Items → Items
  canonical_items nil = nil
  canonical_items (cons v vs) = cons (canonicalize v) (canonical_items vs)

  pub canonical_fields : Fields → Fields
  canonical_fields end = end
  canonical_fields (field k v fs) = field k (canonicalize v) (canonical_fields fs)

unfoldable pub canonical_json_hash : (Value → String) → Value → String
unfolding canonicalize rebuild
canonical_json_hash digest v = digest (canonicalize v)
