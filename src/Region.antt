-- ===== src/Region.antt =====
-- src/utils/fully_persistent_region.h: the history of each page of a memory region. A page is an
-- abstract value with the `memcmp` test `same`. A history keeps a cursor, the node that the next
-- update is compared with. A read moves the cursor and may add default entries to the branch map,
-- so it returns the history too.
pub mod Cursor
pub mod Recording
pub mod Pages
use chronoporia.Base.{
  ℕ, zero, suc, ◌+◌, ◌%◌, ◌^◌, ◌/◌, ◌≡◌, Bool, true, false, not, ◌&&◌, ◌||◌, Option, none, some,
  List, [], ◌∷◌, ◌++◌, if◌then◌else◌, ◌==◌, ltb, lookup, insert, get_or, contains, get_elem?,
  length,
}
use chronoporia.Persistent.Walk.{FatNode, upper_bound}

-- A result, an exception (`at`, `value()`, or an index out of range), or a loop that has not ended.
pub data Outcome (A : Type 0) : Type 0 where
  done : A → Outcome A
  throws : Outcome A
  out_of_fuel : Outcome A

infixl 5 ◌>>=◌
abbrev pub ◌>>=◌ : {A B : Type 0} → Outcome A → (A → Outcome B) → Outcome B
done a >>= f = f a
throws >>= f = throws
out_of_fuel >>= f = out_of_fuel

-- The parent run and the run_seq that a run was branched at, if it has a parent.
pub record Origin : Type 0 where
  pub run_of : Option ℕ
  pub seq_of : Option ℕ

abbrev pub no_origin : Origin
no_origin = record { run_of = none; seq_of = none }

pub record FatNodeHistory (Page : Type 0) : Type 0 where
  pub fat_node_branches : List (ℕ × List (FatNode Page))
  pub branch_history : List (ℕ × Origin)
  pub created_run_id : ℕ
  pub created_run_sequence : ℕ
  pub current_run_id : Option ℕ
  pub current_run_idx : Option ℕ

-- `uint32_t` addition of one.
abbrev pub next_idx : ℕ → ℕ
next_idx i = (i + 1) % 2 ^ 32

-- The cursor's index after a push: one further in its run, or the first of a new run.
abbrev pub moved_idx : Bool → Option ℕ → ℕ
moved_idx true (some idx) = next_idx idx
moved_idx true none = 0
moved_idx false idx = 0

-- `map.insert({k, v})` keeps an entry that is there.
unfoldable pub insert_new {ℓ} : {V : Type ℓ} → ℕ → V → List (ℕ × V) → List (ℕ × V)
insert_new k v m = if contains k m then m else insert k v m

module _ {Page : Type 0} where
  unfoldable pub make : ℕ → ℕ → FatNodeHistory Page
  make run_id run_seq = record {
    fat_node_branches = [];
    branch_history = [];
    created_run_id = run_id;
    created_run_sequence = run_seq;
    current_run_id = none;
    current_run_idx = none;
  }

  abbrev pub forget_cursor : FatNodeHistory Page → FatNodeHistory Page
  forget_cursor h = record h { current_run_id = none; current_run_idx = none }

  abbrev pub set_cursor : FatNodeHistory Page → ℕ → ℕ → FatNodeHistory Page
  set_cursor h run idx = record h { current_run_id = some run; current_run_idx = some idx }

  -- `branch_history_[run]` makes an entry with no parent where there is none.
  unfoldable pub touch : FatNodeHistory Page → ℕ → FatNodeHistory Page
  unfolding insert_new
  touch h run = record h { branch_history = insert_new run no_origin h.branch_history }

  -- No node in the run: on to where it was branched from, if it was branched.
  unfoldable pub climb :
      FatNodeHistory Page
      → ℕ
      → Option ℕ
      → Option ℕ
      → (ℕ → ℕ → Outcome (FatNodeHistory Page × Option (FatNode Page)))
      → Outcome (FatNodeHistory Page × Option (FatNode Page))
  climb h run none seq_of on = done (forget_cursor (touch h run), none)
  climb h run (some parent) none on = throws
  climb h run (some parent) (some at) on = on parent at

  -- The node before the first that is beyond the target, or further up where that is the first.
  unfoldable pub at_bound :
      FatNodeHistory Page
      → ℕ
      → List (FatNode Page)
      → ℕ
      → Outcome (FatNodeHistory Page × Option (FatNode Page))
      → Outcome (FatNodeHistory Page × Option (FatNode Page))
  at_bound h run fat_branch zero up = up
  at_bound h run fat_branch (suc i) up = done (set_cursor h run i, get_elem? fat_branch i)

  unfoldable pub at_branch :
      FatNodeHistory Page
      → ℕ
      → ℕ
      → Option (List (FatNode Page))
      → Outcome (FatNodeHistory Page × Option (FatNode Page))
      → Outcome (FatNodeHistory Page × Option (FatNode Page))
  at_branch h run seq none up = throws
  at_branch h run seq (some fat_branch) up =
      at_bound h run fat_branch (upper_bound seq fat_branch) up

  -- The loop of `get_node_nearest`.
  unfoldable pub nearest_loop :
      ℕ → FatNodeHistory Page → ℕ → ℕ → Outcome (FatNodeHistory Page × Option (FatNode Page))
  nearest_loop zero h run seq = out_of_fuel
  nearest_loop (suc fuel) h run seq =
      let origin = get_or run no_origin h.branch_history in
      at_branch h run seq (lookup run h.fat_node_branches) (
        climb h run origin.run_of origin.seq_of
          (λ parent at. nearest_loop fuel (touch h run) parent at))

  -- The target is before the history was created, by run and then by sequence.
  unfoldable pub is_before : FatNodeHistory Page → ℕ → ℕ → Bool
  is_before h run seq =
      ltb run h.created_run_id || (run == h.created_run_id && ltb seq h.created_run_sequence)

  unfoldable pub get_node_nearest :
      FatNodeHistory Page → ℕ → ℕ → Outcome (FatNodeHistory Page × Option (FatNode Page))
  get_node_nearest h target_run_id target_run_sequence =
      if is_before h target_run_id target_run_sequence
      then done (forget_cursor h, none)
      else if not (contains target_run_id h.fat_node_branches)
      then done (forget_cursor h, none)
      else nearest_loop (suc target_run_id) h target_run_id target_run_sequence

  abbrev pub page_node : ℕ → ℕ → ℕ → Page → FatNode Page
  page_node run_id run_seq global_seq page = record {
    run_id = run_id;
    run_seq = run_seq;
    global_seq = global_seq;
    data_at = page;
  }

  unfoldable pub push_node : FatNodeHistory Page → ℕ → FatNode Page → FatNodeHistory Page
  push_node h run n = record h {
    fat_node_branches =
        insert run (get_or run [] h.fat_node_branches ++ n ∷ []) h.fat_node_branches;
  }

  -- The node at the cursor.
  unfoldable pub previous_node : FatNodeHistory Page → ℕ → Outcome (FatNode Page)
  previous_node h run = elim h.current_run_idx [
    | none ↦ throws
    | some idx ↦ elim (get_elem? (get_or run [] h.fat_node_branches) idx) [
      | none ↦ throws
      | some n ↦ done n
    ]
  ]

  -- A page that is the same as the one at the cursor is not recorded.
  unfoldable pub record_after :
      (Page → Page → Bool)
      → FatNodeHistory Page
      → ℕ
      → ℕ
      → ℕ
      → Page
      → ℕ
      → FatNode Page
      → Outcome (FatNodeHistory Page)
  unfolding push_node
  record_after same h run_id run_seq global_seq page current previous =
      if same previous.data_at page
      then done h
      else done (
          push_node (set_cursor h run_id (moved_idx (current == run_id) h.current_run_idx)) run_id
            (page_node run_id run_seq global_seq page))

  unfoldable pub record_at :
      (Page → Page → Bool)
      → FatNodeHistory Page
      → ℕ
      → ℕ
      → ℕ
      → Page
      → Option ℕ
      → Outcome (FatNodeHistory Page)
  unfolding push_node
  record_at same h run_id run_seq global_seq page none =
      done (push_node (set_cursor h run_id 0) run_id (page_node run_id run_seq global_seq page))
  record_at same h run_id run_seq global_seq page (some current) =
      previous_node h current >>= λ previous.
      record_after same h run_id run_seq global_seq page current previous

  unfoldable pub update :
      (Page → Page → Bool) → FatNodeHistory Page → ℕ → ℕ → ℕ → Page → Outcome (FatNodeHistory Page)
  update same h run_id run_seq global_seq page =
      record_at same h run_id run_seq global_seq page h.current_run_id

  abbrev pub origin_for : Option (FatNode Page) → ℕ → ℕ → Origin
  origin_for none run seq = no_origin
  origin_for (some n) run seq = record { run_of = some run; seq_of = some seq }

  unfoldable pub make_branch : FatNodeHistory Page → ℕ → ℕ → ℕ → Outcome (FatNodeHistory Page)
  unfolding insert_new
  make_branch h from_run_id from_run_sequence to_run_id =
      get_node_nearest h from_run_id from_run_sequence >>= λ out. done (record (out.0) {
        branch_history =
            insert_new to_run_id (origin_for out.1 from_run_id from_run_sequence)
              out.0.branch_history;
        fat_node_branches = insert_new to_run_id [] out.0.fat_node_branches;
      })
