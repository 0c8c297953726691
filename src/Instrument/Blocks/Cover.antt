-- ===== src/Instrument/Blocks/Cover.antt =====
-- The blocks of a function cover it without a gap, and start at the leaders.
use chronoporia.Base.{
  ℕ, suc, ◌≤◌, ◌<◌, ◌≡◌, refl, ap, sym, subst, ◌∙◌, Bool, true, false, ◌&&◌, ◌||◌, List, [], ◌∷◌,
  arith, ◌==◌, mem, All,
}
use chronoporia.Instrument.{BranchSite, FunctionRange, FunctionAnalysis, BasicBlock}
use chronoporia.Instrument.Blocks.{
  insert_leader, next_leads, target_leads, insert_if, add_leaders, blocks_of, discover_blocks,
}

-- Blocks that are not empty and follow one another from an address to another.
abbrev pub Chain : ℕ → List BasicBlock → ℕ → Type 0
Chain a [] end = a ≡ end
Chain a (b ∷ blocks) end = (b.start ≡ a) × (b.start < b.end) × Chain b.end blocks end

-- Numbers in order, from a lower bound and below an end.
abbrev pub Ascending : ℕ → List ℕ → ℕ → Type 0
Ascending low [] end = low ≤ end
Ascending low (x ∷ xs) end = (low ≤ x) × Ascending (suc x) xs end

pub Ascending-le : (low : ℕ) (xs : List ℕ) (end : ℕ) → Ascending low xs end → low ≤ end
Ascending-le low [] end h = h
Ascending-le low (x ∷ xs) end h = omega (arith, h.0, Ascending-le (suc x) xs end h.1)

pub Ascending-from :
    (low high : ℕ) (xs : List ℕ) (end : ℕ)
    → low ≤ high
    → Ascending high xs end
    → Ascending low xs end
Ascending-from low high [] end h asc = omega arith
Ascending-from low high (x ∷ xs) end h asc = (omega (arith, asc.0), asc.1)

insert_leader-Ascending :
    (a low : ℕ) (xs : List ℕ) (end : ℕ)
    → low ≤ a
    → a < end
    → Ascending low xs end
    → Ascending low (insert_leader a xs) end
unfolding insert_leader
insert_leader-Ascending a low [] end h k asc = (h, k)
insert_leader-Ascending a low (x ∷ xs) end h k asc =
    ground (arith, insert_leader-Ascending a (suc x) xs end)

-- The function's start stays first.
abbrev StartsAt : ℕ → List ℕ → ℕ → Type 0
StartsAt start [] end = start < start
StartsAt start (x ∷ xs) end = (x ≡ start) × Ascending (suc start) xs end

insert_leader-StartsAt :
    (a start : ℕ) (xs : List ℕ) (end : ℕ)
    → start ≤ a
    → a < end
    → StartsAt start xs end
    → StartsAt start (insert_leader a xs) end
unfolding insert_leader
insert_leader-StartsAt a start [] end h k st = absurd (omega arith)
insert_leader-StartsAt a start (x ∷ xs) end h k st =
    ground (arith, insert_leader-Ascending a (suc start) xs end)

insert_if-StartsAt :
    (b : Bool) (a start : ℕ) (xs : List ℕ) (end : ℕ)
    → (b ≡ true → (start ≤ a) × (a < end))
    → StartsAt start xs end
    → StartsAt start (insert_if b a xs) end
insert_if-StartsAt true a start xs end h st =
    insert_leader-StartsAt a start xs end (h refl).0 (h refl).1 st
insert_if-StartsAt false a start xs end h st = st

-- A branch whose following instruction is behind the start of its function.
abbrev pub IsAfterStart : FunctionRange → BranchSite → Type 0
IsAfterStart info b = info.start < b.next_address

target_inside :
    (info : FunctionRange) (b : BranchSite)
    → target_leads info b ≡ true
    → (info.start ≤ b.target) × (b.target < info.end)
unfolding target_leads
target_inside info b e = ground arith

next_inside :
    (info : FunctionRange) (b : BranchSite)
    → IsAfterStart info b
    → next_leads info b ≡ true
    → (info.start ≤ b.next_address) × (b.next_address < info.end)
unfolding next_leads
next_inside info b after e = ground arith

add_leaders-StartsAt :
    (info : FunctionRange) (branches : List BranchSite) (leaders : List ℕ)
    → All (IsAfterStart info) branches
    → StartsAt info.start leaders info.end
    → StartsAt info.start (add_leaders info branches leaders) info.end
unfolding add_leaders
add_leaders-StartsAt info [] leaders h st = st
add_leaders-StartsAt info (b ∷ branches) leaders h st =
    add_leaders-StartsAt info branches
      (insert_if (target_leads info b) b.target
        (insert_if (next_leads info b) b.next_address leaders))
      h.1
      (insert_if-StartsAt (target_leads info b) b.target info.start
        (insert_if (next_leads info b) b.next_address leaders) info.end (target_inside info b)
        (insert_if-StartsAt (next_leads info b) b.next_address info.start leaders info.end
          (next_inside info b h.0) st))

blocks_of-Chain :
    (a : ℕ) (xs : List ℕ) (end : ℕ)
    → Ascending (suc a) xs end
    → Chain a (blocks_of (a ∷ xs) end) end
unfolding blocks_of
blocks_of-Chain a [] end h = (refl, h, refl)
blocks_of-Chain a (b ∷ xs) end h = (refl, h.0, blocks_of-Chain b xs end h.1)

-- The addresses at which blocks start.
unfoldable pub starts : List BasicBlock → List ℕ
starts [] = []
starts (b ∷ blocks) = b.start ∷ starts blocks

starts-blocks_of : (xs : List ℕ) (end : ℕ) → starts (blocks_of xs end) ≡ xs
unfolding starts blocks_of
starts-blocks_of [] end = refl
starts-blocks_of (a ∷ []) end = refl
starts-blocks_of (a ∷ b ∷ xs) end = ap (λ r. a ∷ r) (starts-blocks_of (b ∷ xs) end)

mem-insert_leader : (a x : ℕ) (xs : List ℕ) → mem a (insert_leader x xs) ≡ (x == a || mem a xs)
unfolding mem insert_leader
mem-insert_leader a x [] = refl
mem-insert_leader a x (y ∷ xs) = ground (arith, mem-insert_leader a x xs)

mem-insert_if :
    (b : Bool) (a x : ℕ) (xs : List ℕ) → mem a (insert_if b x xs) ≡ (b && x == a || mem a xs)
mem-insert_if true a x xs = mem-insert_leader a x xs
mem-insert_if false a x xs = refl

-- An address is a leader: it is where the function starts, or for some branch that splits blocks the
-- instruction behind it, or a branch's target inside the function.
unfoldable pub led_by : FunctionRange → List BranchSite → ℕ → Bool
led_by info [] a = false
led_by info (b ∷ branches) a =
    next_leads info b && b.next_address == a
    || target_leads info b && b.target == a
    || led_by info branches a

mem-add_leaders :
    (info : FunctionRange) (branches : List BranchSite) (leaders : List ℕ) (a : ℕ)
    → mem a (add_leaders info branches leaders) ≡ (led_by info branches a || mem a leaders)
unfolding add_leaders led_by
mem-add_leaders info [] leaders a = refl
mem-add_leaders info (b ∷ branches) leaders a = ground (
  arith,
  mem-add_leaders info branches
      (insert_if (target_leads info b) b.target
        (insert_if (next_leads info b) b.next_address leaders))
      a,
  mem-insert_if (target_leads info b) a b.target
      (insert_if (next_leads info b) b.next_address leaders),
  mem-insert_if (next_leads info b) a b.next_address leaders,
)

StartsAt-Chain :
    (start : ℕ) (xs : List ℕ) (end : ℕ) → StartsAt start xs end → Chain start (blocks_of xs end) end
StartsAt-Chain start [] end st = absurd (omega arith)
StartsAt-Chain start (x ∷ xs) end st =
    subst (λ a. Chain a (blocks_of (x ∷ xs) end) end) st.0
      (blocks_of-Chain x xs end (subst (λ a. Ascending (suc a) xs end) (sym st.0) st.1))

-- The function's own start, or a leader by one of its branches.
abbrev pub is_leader : FunctionAnalysis → ℕ → Bool
is_leader fn a = fn.info.start == a || led_by fn.info fn.branches a

-- For a function that is not empty and whose branches end behind its start, the blocks follow one
-- another without gap or overlap from the start to the end of the function, none is empty, and an
-- address starts a block exactly when it is a leader.
pub discover_blocks-Chain :
    (fn : FunctionAnalysis)
    → fn.info.start < fn.info.end
    → All (IsAfterStart fn.info) fn.branches
    → Chain fn.info.start (discover_blocks fn) fn.info.end
      × ((a : ℕ) → mem a (starts (discover_blocks fn)) ≡ is_leader fn a)
unfolding discover_blocks insert_leader mem
discover_blocks-Chain fn nonempty after = (
  StartsAt-Chain fn.info.start (add_leaders fn.info fn.branches (fn.info.start ∷ [])) fn.info.end
      (add_leaders-StartsAt fn.info fn.branches (fn.info.start ∷ []) after (refl, nonempty)),
  λ a.
      ap (mem a)
        (starts-blocks_of (add_leaders fn.info fn.branches (fn.info.start ∷ [])) fn.info.end)
      ∙ mem-add_leaders fn.info fn.branches (fn.info.start ∷ []) a
      ∙ or_swap (led_by fn.info fn.branches a) (fn.info.start == a),
)
  where
    or_swap : (b c : Bool) → (b || (c || false)) ≡ (c || b)
    or_swap b c = ground arith
