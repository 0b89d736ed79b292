-- ===== src/Malloc/Tree/Refine.antt =====
-- The red-black tree of free segments refines a sorted list.
use splab.Prelude.{◌≡◌, false, true}
use splab.Prelude.Fault.{Ensures, Ensures-imp, Ensures-×}
use splab.Malloc.Tree.{Tree, Segment, black, color, segments}
use splab.Malloc.Tree.Insert.{insert}
use splab.Malloc.Tree.Delete.{delete}
use splab.Malloc.Tree.Balance.{IsRedBlack}
use splab.Malloc.Tree.Balance.Insert.{insert-IsRedBlack}
use splab.Malloc.Tree.Balance.Delete.{delete-IsRedBlack}
use splab.Malloc.Tree.Order.List.{IsSorted, member, insert-IsSorted}
use splab.Malloc.Tree.Order.List as Order
use splab.Malloc.Tree.Order.Remove.{IsAt, remove-IsSorted}
use splab.Malloc.Tree.Order.Insert.{insert-segments}
use splab.Malloc.Tree.Order.Delete.{delete-segments}

-- The tree at `data->root` between two calls.
pub record IsValid (t : Tree) : Type 0 where
  pub red_black : IsRedBlack t
  pub black_root : color t ≡ black
  pub sorted : IsSorted (segments t)

-- For a valid tree and a segment at an address that the tree does not hold, `mm_insert` does not
-- fault, leaves a valid tree, and inserts the segment into the sorted list of the tree's segments.
pub insert_refines :
    (t : Tree) (new : Segment)
    → IsValid t
    → member new (segments t) ≡ false
    → Ensures (insert t new) (λ t'. IsValid t' × (segments t' ≡ Order.insert new (segments t)))
insert_refines t new v m =
    Ensures-imp _ _ (insert t new)
      (Ensures-× _ _ (insert t new) (insert-IsRedBlack t new v.red_black)
        (insert-segments t new v.sorted))
      λ t' h. (
        record {
          red_black = h.0.0;
          black_root = h.0.1;
          sorted = rw h.1 (insert-IsSorted new (segments t) v.sorted m);
        },
        h.1,
      )

-- For a valid tree that holds the segment `del`, and no other at its address, `mm_delete` does not
-- fault, leaves a valid tree, and removes `del` from the sorted list of the tree's segments.
pub delete_refines :
    (t : Tree) (del : Segment)
    → IsValid t
    → IsAt del (segments t)
    → member del (segments t) ≡ true
    → Ensures (delete t del) (λ t'. IsValid t' × (segments t' ≡ Order.remove del (segments t)))
delete_refines t del v a m =
    let (reached, removed) = delete-segments t del v.sorted a m in
    Ensures-imp _ _ (delete t del)
      (Ensures-× _ _ (delete t del) (delete-IsRedBlack t del v.red_black reached) removed)
      λ t' h. (
        record {
          red_black = h.0.0;
          black_root = h.0.1;
          sorted = rw h.1 (remove-IsSorted del (segments t) v.sorted);
        },
        h.1,
      )
