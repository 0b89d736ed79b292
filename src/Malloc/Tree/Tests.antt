-- ===== src/Malloc/Tree/Tests.antt =====
-- The tree functions on a small tree, and the theorems at it.
use splab.Prelude.{ℕ, ◌≡◌, some, refl, arith}
use splab.Prelude.Fault.{Ensures}
use splab.Malloc.Tree.{Tree, null, node, Segment, black, red, segments, cmp_node, search_node}
use splab.Malloc.Tree.Insert.{insert, insert_node, fix_left, fix_right}
use splab.Malloc.Tree.Delete.{
  delete, delete_node, delete_min, delete_left, delete_right, delete_left_black, delete_right_black,
}
use splab.Malloc.Tree.Order.List as Order
use splab.Malloc.Tree.Search.{FitSpec, search_node-FitSpec}
use splab.Malloc.Tree.Refine.{IsValid, insert_refines, delete_refines}

abbrev seg : ℕ → ℕ → Segment
seg size ptr = record { size = size; ptr = ptr }

-- Four free segments; two have the same size.
abbrev small : Tree
small =
    node black (seg 4 64) (node black (seg 2 16) null (node red (seg 2 96) null null))
      (node black (seg 9 128) null null)

small-IsValid : IsValid small
unfolding cmp_node
small-IsValid = record {
  red_black = (refl, refl, (refl, refl, tt, (refl, refl, tt, tt)), (refl, refl, tt, tt));
  black_root = refl;
  sorted = ground arith;
}

-- A third segment below the left child makes the colours flip.
insert-small :
    insert small (seg 3 200)
    ≡ some (
        node black
          (seg 4 64)
          (node black (seg 2 96) (node red (seg 2 16) null null) (node red (seg 3 200) null null))
          (node black (seg 9 128) null null))
unfolding insert insert_node fix_left fix_right cmp_node
insert-small = refl

-- The root is replaced by the least segment of its right subtree.
delete-small :
    delete small (seg 4 64)
    ≡ some
        (node black (seg 2 96) (node black (seg 2 16) null null) (node black (seg 9 128) null null))
unfolding delete delete_node delete_min delete_left delete_right delete_left_black
    delete_right_black cmp_node
delete-small = refl

search-small : search_node small 3 ≡ some (seg 4 64)
unfolding search_node
search-small = refl

insert_refines_example :
    Ensures
      (insert small (seg 3 200))
      (λ t'. IsValid t' × (segments t' ≡ Order.insert (seg 3 200) (segments small)))
insert_refines_example = insert_refines small (seg 3 200) small-IsValid refl

delete_refines_example :
    Ensures
      (delete small (seg 4 64))
      (λ t'. IsValid t' × (segments t' ≡ Order.remove (seg 4 64) (segments small)))
delete_refines_example =
    delete_refines small (seg 4 64) small-IsValid
      ((λ e. cc), ((λ e. cc), ((λ e. refl), ((λ e. cc), tt)))) refl

search_node-FitSpec_example : FitSpec 3 (segments small) (search_node small 3)
search_node-FitSpec_example = search_node-FitSpec small 3 small-IsValid.sorted
