-- ===== src/Charm/Ownership.antt =====
-- `Node::getOwnershipFromChildren` of charm/Node.h. A child that no TreePiece owns has a negative
-- owner_start. `none` is CkAbort.
pub mod Cover
use amt_bh_benchmark.Base.{
  Bool, true, false, ◌&&◌, ◌||◌, not, Option, none, some, List, [], ◌∷◌, if◌then◌else◌,
}
use amt_bh_benchmark.Base.Int.{ℤ, pos, negsuc, ◌-ℤ◌, ltb_ℤ}

-- The source's Invalid is spelt as the other constants are.
pub data NodeType : Type 0 where
  invalid : NodeType
  internal : NodeType
  bucket : NodeType
  empty_bucket : NodeType
  boundary : NodeType
  remote : NodeType
  remote_bucket : NodeType
  remote_empty_bucket : NodeType

unfoldable pub is_external : NodeType → Bool
is_external remote = true
is_external remote_bucket = true
is_external remote_empty_bucket = true
is_external _ = false

-- What the function reads of a child, and sets of the node.
pub record Owned : Type 0 where
  pub node_type : NodeType
  pub owner_start : ℤ
  pub owner_end : ℤ

-- The variables of the loop; prevEnd and lastEnd are always equal, and one here.
pub record Walk : Type 0 where
  pub all_external : Bool
  pub first_start : ℤ
  pub last_end : ℤ

abbrev pub is_negative : ℤ → Bool
is_negative t = ltb_ℤ t (pos 0)

-- prevEnd >= 0, and diff < 0 || diff > 1.
unfoldable pub leaves_gap : ℤ → ℤ → Bool
leaves_gap owner_start prev_end =
    let diff = owner_start -ℤ prev_end in
    not (is_negative prev_end) && (is_negative diff || ltb_ℤ (pos 1) diff)

unfoldable pub walk_child : Owned → Walk → Walk
walk_child c w = record {
  all_external = w.all_external && is_external c.node_type;
  first_start = if is_negative w.first_start then c.owner_start else w.first_start;
  last_end = c.owner_end;
}

unfoldable pub walk_children : List Owned → Walk → Option Walk
walk_children [] w = some w
walk_children (c ∷ cs) w =
    let skipped =
      walk_children cs (record w { all_external = w.all_external && is_external c.node_type }) in
    let next = walk_children cs (walk_child c w) in
    if is_negative c.owner_start
    then skipped
    else if leaves_gap c.owner_start w.last_end
    then none
    else next

unfoldable pub node_of : Walk → Owned
node_of w = record {
  node_type = if w.all_external then remote else boundary;
  owner_start = w.first_start;
  owner_end = w.last_end;
}

unfoldable pub get_ownership_from_children : List Owned → Option Owned
get_ownership_from_children children =
    elim (walk_children children
      (record { all_external = true; first_start = negsuc 0; last_end = negsuc 0 })) [
        | none ↦ none
        | some w ↦ some (node_of w)
      ]
