-- ===== src/Indexer/Logs.antt =====
-- `burnLogGroups` of app/community-indexer.ts. A line is read by the three regular expressions of
-- the source, no two of which match the same line; `LogLine` is what they find.
pub mod Nesting
use onchainburner.Base.{
  ℕ, zero, suc, ◌+◌, ◌-◌, Bool, true, false, ◌&&◌, Option, none, some, List, [], ◌∷◌, ◌++◌, length,
  keep_if, ◌==◌, if◌then◌else◌,
}
use onchainburner.Chain.{PublicKey, burner_program}

pub data LogLine : Type 0 where
  -- `Program <program> invoke [<depth>]`
  invoke : PublicKey → ℕ → LogLine
  -- `Program log: 0x0, 0x0, 0x0, <input>, <atoms>`
  logged : ℕ → ℕ → LogLine
  -- `Program <program> success` or `failed: …`
  finished : PublicKey → LogLine
  other : LogLine

-- `closed` and, behind it, `active` are the array `groups`: an active group is the last one there.
-- The stack has its bottom first; a hole of the JavaScript array is `none`.
pub record State : Type 0 where
  pub stack : List (Option PublicKey)
  pub closed : List (List ℕ)
  pub active : Option (List ℕ)

-- `stack.length = n`
abbrev pub set_length : ℕ → List (Option PublicKey) → List (Option PublicKey)
set_length zero xs = []
set_length (suc n) [] = none ∷ set_length n []
set_length (suc n) (x ∷ xs) = x ∷ set_length n xs

-- `stack.at(-1) === program`
abbrev pub top_is : PublicKey → List (Option PublicKey) → Bool
top_is p [] = false
top_is p (none ∷ []) = false
top_is p (some q ∷ []) = q == p
top_is p (x ∷ y ∷ xs) = top_is p (y ∷ xs)

-- `stack.pop()`
abbrev pub pop : List (Option PublicKey) → List (Option PublicKey)
pop [] = []
pop (x ∷ []) = []
pop (x ∷ y ∷ xs) = x ∷ pop (y ∷ xs)

abbrev pub all_groups : List (List ℕ) → Option (List ℕ) → List (List ℕ)
all_groups closed none = closed
all_groups closed (some group) = closed ++ group ∷ []

abbrev pub push_values : ℕ → ℕ → Option (List ℕ) → Option (List ℕ)
push_values a b none = none
push_values a b (some group) = some (group ++ a ∷ b ∷ [])

-- One round of the loop.
pub read_line : State → LogLine → State
read_line s (invoke p depth) =
    let stack = set_length (depth - 1) s.stack ++ some p ∷ [] in
    if depth == 1 && p == burner_program
    then record { stack = stack; closed = all_groups s.closed s.active; active = some [] }
    else record s { stack = stack }
read_line s (logged a b) =
    if top_is burner_program s.stack then record s { active = push_values a b s.active } else s
read_line s (finished p) =
    let was_top = length s.stack == 1 && p == burner_program in
    let stack = if top_is p s.stack then pop s.stack else s.stack in
    if was_top
    then record { stack = stack; closed = all_groups s.closed s.active; active = none }
    else record s { stack = stack }
read_line s other = s

pub read_lines : State → List LogLine → State
read_lines s [] = s
read_lines s (line ∷ lines) = read_lines (read_line s line) lines

abbrev pub initial : State
initial = record { stack = []; closed = []; active = none }

abbrev pub is_filled : List ℕ → Bool
is_filled [] = false
is_filled (_ ∷ _) = true

pub burn_log_groups : List LogLine → List (List ℕ)
burn_log_groups lines =
    let s = read_lines initial lines in keep_if is_filled (all_groups s.closed s.active)

-- What a test unfolds.
unfoldable pub grouping : Unit {0}
unfolding burn_log_groups read_lines read_line
grouping = tt
