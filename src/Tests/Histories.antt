-- ===== src/Tests/Histories.antt =====
-- The persistent arrays and page histories on small inputs.
use chronoporia.Base.{
  ℕ, ◌≡◌, refl, some, List, [], ◌∷◌, arith, ◌==◌, get_or, contains, last, lookup,
}
use chronoporia.Persistent.Walk.{upper_bound, FatNode, of_option}
use chronoporia.Persistent.Array
use chronoporia.Persistent.Array.{PersistentArray, IsValid, find_fat_node, visible}
use chronoporia.Persistent.Array.Laws.{
  find_fat_node-visible, try_get-update_before, operations-IsValid,
}
use chronoporia.Persistent.CacheArray
use chronoporia.Persistent.CacheArray.{CacheArray, first_nodes, latest, update_page, update_line}
use chronoporia.Persistent.CacheArray.Sync.{IsSynced, IsSame, update_line-IsSynced}
use chronoporia.Persistent.CacheArray.Page.{get-update_page, create-IsSynced}
use chronoporia.Region
use chronoporia.Region.{
  FatNodeHistory, Outcome, done, get_node_nearest, nearest_loop, at_branch, at_bound, is_before,
  page_node,
}
use chronoporia.Region.Cursor.{update-after_read}
use chronoporia.Region.Recording.{updates, changes, IsAtEnd, Records, updates-Records}

abbrev entry : ℕ → ℕ → ℕ → FatNode ℕ
entry run seq v = record { run_id = run; run_seq = seq; global_seq = seq; data_at = v }

-- Run 0 has two values, and run 1 branches off between them.
abbrev two_runs : PersistentArray ℕ
two_runs = record {
  created_run_id = 0;
  created_run_seq = 1;
  runs = (0, entry 0 1 40 ∷ entry 0 5 50 ∷ []) ∷ [];
  lineage = (1, record { parent_run_id = 0; branch_run_seq = 3 }) ∷ [];
}

two_runs-IsValid : IsValid two_runs
two_runs-IsValid = record { forest = (ground arith, tt); sorted = ((ground arith, (tt, tt)), tt) }

find_fat_node-visible_example : find_fat_node two_runs 1 2 ≡ of_option (last (visible two_runs 1 2))
find_fat_node-visible_example = find_fat_node-visible two_runs 1 2 two_runs-IsValid

try_get-update_before_example :
    Array.try_get (Array.update two_runs 0 6 6 60) 1 9 ≡ Array.try_get two_runs 1 9
try_get-update_before_example =
    try_get-update_before two_runs 0 6 6 60 1 9 (ground arith) (λ e. ground arith)

operations-IsValid_example :
    IsValid (Array.update two_runs 0 6 6 60) × IsValid (Array.register_branch two_runs 2 0 3)
unfolding lookup
operations-IsValid_example =
    operations-IsValid two_runs 0 6 6 60 2 0 3 two_runs-IsValid (ground arith) (omega arith)

-- A page of two lines, made at run_seq 1 of run 0; lines are compared by `==`.
abbrev page : CacheArray ℕ
page = CacheArray.create 0 1 1 (7 ∷ 8 ∷ [])

page-IsSynced : IsSynced 2 page 0 1
page-IsSynced = create-IsSynced 0 1 1 (7 ∷ 8 ∷ [])

IsSame-equals : IsSame (λ x y. x == y)
IsSame-equals x y e = ground arith

update_line-IsSynced_example : IsSynced 2 (update_line 2 page 0 3 3 1 9) 0 3
update_line-IsSynced_example =
    update_line-IsSynced 2 page 0 1 3 3 1 9 page-IsSynced (omega arith) (omega arith)

abbrev second_page : CacheArray ℕ
second_page = update_page (λ x y. x == y) 2 page 0 3 3 0 (7 ∷ 9 ∷ []) (latest page)

get-update_page_example :
    (CacheArray.get 0 2 second_page 0 3 ≡ some (7 ∷ 9 ∷ []))
    × (latest second_page ≡ 7 ∷ 9 ∷ [])
    × IsSynced 2 second_page 0 3
get-update_page_example =
    get-update_page (λ x y. x == y) 0 IsSame-equals 2 page 0 1 3 3 (7 ∷ 9 ∷ []) page-IsSynced
      (omega arith) refl

-- A page history with a value in run 0 and another in run 1, which branched off after the first.
abbrev two_pages : FatNodeHistory ℕ
two_pages = record {
  fat_node_branches = (0, entry 0 1 40 ∷ []) ∷ (1, entry 1 2 50 ∷ []) ∷ [];
  branch_history = (1, record { run_of = some 0; seq_of = some 1 }) ∷ [];
  created_run_id = 0;
  created_run_sequence = 1;
  current_run_id = some 1;
  current_run_idx = some 0;
}

-- The same history after the value of run 0 was read.
abbrev after_read : FatNodeHistory ℕ
after_read = record two_pages { current_run_id = some 0; current_run_idx = some 0 }

read_first : get_node_nearest two_pages 0 4 ≡ done (after_read, some (entry 0 1 40))
unfolding get_node_nearest nearest_loop at_branch at_bound upper_bound lookup contains is_before
    get_or
read_first = refl

update-after_read_example : Region.update (λ x y. x == y) after_read 1 3 3 40 ≡ done after_read
update-after_read_example =
    update-after_read (λ x y. x == y) two_pages 0 4 after_read (entry 0 1 40) 1 3 3 40 read_first
      refl

two_pages-IsAtEnd : IsAtEnd (λ x y. x == y) 1 two_pages [] (entry 1 2 50)
unfolding get_or lookup
two_pages-IsAtEnd = record { at_run = refl; at_idx = refl; nodes = refl }

-- Three pages, of which the second is the same as the first.
abbrev three_pages : List (ℕ × ℕ × ℕ)
three_pages = (3, 3, 60) ∷ (4, 4, 60) ∷ (5, 5, 50) ∷ []

updates-Records_example :
    Records
      (λ x y. x == y)
      1
      two_pages
      (entry 1 2 50 ∷ entry 1 3 60 ∷ entry 1 5 50 ∷ [])
      (updates (λ x y. x == y) 1 two_pages three_pages)
unfolding changes
updates-Records_example =
    updates-Records (λ x y. x == y) 1 two_pages [] (entry 1 2 50) three_pages two_pages-IsAtEnd
      (omega arith)
