-- ===== src/Dll/Tests.antt =====
-- The list operations at concrete lists.
use sherry.Base.{refl, [], ◌∷◌, ◌==◌, if◌then◌else◌, arith}
use sherry.Dll.{DList, Nodes, list_insert, list_erase, list_enqueue, list_dequeue}
use sherry.Dll.Rep.{Rep}
use sherry.Dll.Linked.{Ensures}
use sherry.Dll.Unlinked.{Returns}
use sherry.Dll.Insert.{Inserted, list_insert-Inserted}
use sherry.Dll.Erase.{Erased, list_erase-Erased}
use sherry.Dll.Queue.{Enqueued, list_enqueue-Enqueued, Dequeued, list_dequeue-Dequeued}

-- The nodes 4 and 9 in a list, and nothing else.
abbrev pair_nodes : Nodes
pair_nodes a =
    if a == 4
    then record { prev = 0; next = 9 }
    else if a == 9
    then record { prev = 4; next = 0 }
    else record { prev = 0; next = 0 }

abbrev pair : DList
pair = record { head = 4; tail = 9 }

pair-Rep : Rep pair_nodes pair (4 ∷ 9 ∷ [])
pair-Rep = ground arith

list_insert-Inserted_example :
    Ensures (Inserted pair_nodes (4 ∷ []) 7 (9 ∷ [])) (list_insert pair 7 9 pair_nodes)
list_insert-Inserted_example =
    list_insert-Inserted pair_nodes pair (4 ∷ []) 7 (9 ∷ []) pair-Rep refl (omega arith)

list_erase-Erased_example : Returns (Erased pair_nodes [] 4 (9 ∷ [])) (list_erase pair 4 pair_nodes)
list_erase-Erased_example = list_erase-Erased pair_nodes pair [] 4 (9 ∷ []) pair-Rep

list_enqueue-Enqueued_example :
    Ensures (Enqueued pair_nodes (4 ∷ 9 ∷ []) 7) (list_enqueue pair 7 pair_nodes)
list_enqueue-Enqueued_example =
    list_enqueue-Enqueued pair_nodes pair (4 ∷ 9 ∷ []) 7 pair-Rep refl (omega arith)

list_dequeue-Dequeued_example :
    Returns (Dequeued pair_nodes pair (4 ∷ 9 ∷ [])) (list_dequeue pair pair_nodes)
list_dequeue-Dequeued_example = list_dequeue-Dequeued pair_nodes pair (4 ∷ 9 ∷ []) pair-Rep
