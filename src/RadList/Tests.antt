-- ===== src/RadList/Tests.antt =====
-- radlist.c: a list of three nodes in a concrete memory.
use radlib.Base.{◌≡◌, refl, [], ◌∷◌, arith}
use radlib.RadList.{
  null, State, count_up, set_next, set_prev, reset, insert_after, insert_before, add_to_end, remove,
  get_next, get_previous,
}
use radlib.RadList.Chain.{IsList, IsFresh}
use radlib.RadList.Insert.{insert_lem}
use radlib.RadList.Delete.{remove_lem}
use radlib.RadList.Walk.{walk_lem}

-- The dummies are at 1 and 2.
abbrev pub header : State
header = record {
  memory = record { next_node = λ a. null; prev_node = λ a. null };
  list = record {
    first_node = null;
    last_node = null;
    dummy_first = 1;
    dummy_last = 2;
    no_nodes = 0;
  };
}

abbrev pub no_nodes_yet : State
unfolding reset set_next set_prev
no_nodes_yet = reset header

-- The nodes 10, 12 and 11, in this order.
abbrev pub three_nodes : State
unfolding add_to_end insert_after reset set_next set_prev count_up
three_nodes = insert_after (add_to_end (add_to_end no_nodes_yet 10) 11) 10 12

pub no_nodes_yet-IsList : IsList no_nodes_yet []
unfolding reset set_next set_prev
no_nodes_yet-IsList = record {
  linked = (refl, refl, tt);
  distinct = (refl, (refl, tt));
  non_null = refl;
  counted = refl;
}

pub three_nodes-IsList : IsList three_nodes (10 ∷ 12 ∷ 11 ∷ [])
unfolding add_to_end insert_after reset set_next set_prev count_up
three_nodes-IsList = record {
  linked = (refl, refl, (refl, refl, (refl, refl, (refl, refl, tt))));
  distinct = (refl, (refl, (refl, (refl, (refl, tt)))));
  non_null = refl;
  counted = refl;
}

pub three_nodes-IsFresh : IsFresh three_nodes (10 ∷ 12 ∷ 11 ∷ []) 20
unfolding add_to_end insert_after reset set_next set_prev count_up
three_nodes-IsFresh = record { outside = refl; ne_null = omega arith }

insert_lem_example :
    IsList (insert_after three_nodes 12 20) (10 ∷ 12 ∷ 20 ∷ 11 ∷ [])
    × IsList (insert_before three_nodes 12 20) (10 ∷ 20 ∷ 12 ∷ 11 ∷ [])
insert_lem_example =
    insert_lem three_nodes 20 12 (10 ∷ []) (11 ∷ []) three_nodes-IsList three_nodes-IsFresh

remove_lem_example : IsList (remove three_nodes 12) (10 ∷ 11 ∷ [])
remove_lem_example = remove_lem three_nodes 12 (10 ∷ []) (11 ∷ []) three_nodes-IsList

walk_lem_example :
    (get_next three_nodes 12 ≡ 11)
    × (get_previous three_nodes 12 ≡ 10)
    × (get_next three_nodes null ≡ 10)
    × (get_previous three_nodes null ≡ 11)
walk_lem_example = walk_lem three_nodes 12 (10 ∷ []) (11 ∷ []) three_nodes-IsList
