-- ===== src/Indexer/Logs/Nesting.antt =====
-- The groups of a well-nested log, as Solana writes it.
use onchainburner.Base.{
  ℕ, ◌+◌, ◌-◌, ◌≡◌, ◌≢◌, refl, sym, ap, ◌∙◌, Bool, true, false, Option, none, some, List, [], ◌∷◌,
  ◌++◌, length, keep_if, ◌==◌, if◌then◌else◌, arith, length-append, Bool-cases, inl, inr, ==-refl,
}
use onchainburner.Chain.{PublicKey, burner_program}
use onchainburner.Indexer.Logs.{
  LogLine, invoke, logged, finished, other, State, set_length, top_is, pop, push_values, read_line,
  read_lines, is_filled, burn_log_groups,
}
use mathlib.Core.Path.{subst}
use mathlib.Core.List.{append_assoc, append-nil}

-- A call of a program: its own log lines and its inner calls, in order.
mutual
  pub data Call : Type 0 where
    call : PublicKey → Items → Call

  pub data Items : Type 0 where
    done : Items
    values : ℕ → ℕ → Items → Items
    text : Items → Items
    inner : Call → Items → Items

-- The log of a call that runs under `depth` others.
unfoldable mutual
  pub log_of : ℕ → Call → List LogLine
  log_of depth (call p items) =
      invoke p (depth + 1) ∷ (log_items (depth + 1) items ++ finished p ∷ [])

  pub log_items : ℕ → Items → List LogLine
  log_items depth done = []
  log_items depth (values a b items) = logged a b ∷ log_items depth items
  log_items depth (text items) = other ∷ log_items depth items
  log_items depth (inner c items) = log_of depth c ++ log_items depth items

-- What the burner itself logs in a call, at any depth; nothing that another program logs.
unfoldable mutual
  pub burned_in : Call → List ℕ
  burned_in (call p items) = burned_items p items

  pub burned_items : PublicKey → Items → List ℕ
  burned_items p done = []
  burned_items p (values a b items) =
      let rest = burned_items p items in if p == burner_program then a ∷ b ∷ rest else rest
  burned_items p (text items) = burned_items p items
  burned_items p (inner c items) = burned_in c ++ burned_items p items

read_lines-append :
    (s : State) (xs ys : List LogLine) → read_lines s (xs ++ ys) ≡ read_lines (read_lines s xs) ys
unfolding read_lines
read_lines-append s [] ys = refl
read_lines-append s (x ∷ xs) ys = read_lines-append (read_line s x) xs ys

set_length_self : (xs : List (Option PublicKey)) → set_length (length xs) xs ≡ xs
set_length_self [] = refl
set_length_self (x ∷ xs) = ap (λ t. x ∷ t) (set_length_self xs)

pop-push : (xs : List (Option PublicKey)) (x : Option PublicKey) → pop (xs ++ x ∷ []) ≡ xs
pop-push [] x = refl
pop-push (y ∷ []) x = refl
pop-push (y ∷ z ∷ xs) x = ap (λ t. y ∷ t) (pop-push (z ∷ xs) x)

top_is-push :
    (q : PublicKey) (xs : List (Option PublicKey)) (p : PublicKey)
    → top_is q (xs ++ some p ∷ []) ≡ (p == q)
top_is-push q [] p = refl
top_is-push q (y ∷ []) p = refl
top_is-push q (y ∷ z ∷ xs) p = top_is-push q (z ∷ xs) p

-- What an open group becomes.
abbrev extend : Option (List ℕ) → List ℕ → Option (List ℕ)
extend none more = none
extend (some group) more = some (group ++ more)

extend-nil : (g : Option (List ℕ)) → extend g [] ≡ g
extend-nil none = refl
extend-nil (some group) = ap some (append-nil group)

extend-append :
    (g : Option (List ℕ)) (xs ys : List ℕ) → extend (extend g xs) ys ≡ extend g (xs ++ ys)
extend-append none xs ys = refl
extend-append (some group) xs ys = ap some (append_assoc group xs ys)

abbrev at : List (Option PublicKey) → List (List ℕ) → Option (List ℕ) → State
at stack closed active = record { stack = stack; closed = closed; active = active }

length-push :
    (xs : List (Option PublicKey)) (x : Option PublicKey) → length (xs ++ x ∷ []) ≡ length xs + 1
length-push xs x = length-append xs (x ∷ [])

module _ (stack : List (Option PublicKey)) (closed : List (List ℕ)) (g : Option (List ℕ)) where
  read_invoke :
      (p : PublicKey) (depth : ℕ)
      → length stack ≡ depth
      → depth ≢ 0
      → read_line (at stack closed g) (invoke p (depth + 1)) ≡ at (stack ++ some p ∷ []) closed g
  unfolding read_line
  read_invoke p depth e h =
      rw (nested, same) (ap (λ t. at (t ++ some p ∷ []) closed g) (rw e at (set_length_self stack)))
    where
      nested : (depth + 1 == 1) ≡ false
      nested = ground arith

      same : depth + 1 - 1 ≡ depth
      same = omega arith

  read_finished :
      (p : PublicKey)
      → length stack ≢ 0
      → read_line (at (stack ++ some p ∷ []) closed g) (finished p) ≡ at stack closed g
  unfolding read_line
  read_finished p h =
      rw (inner_call, top_is-push p stack p, ==-refl p)
        (ap (λ t. at t closed g) (pop-push stack (some p)))
    where
      inner_call : (length (stack ++ some p ∷ []) == 1) ≡ false
      inner_call = ground (arith, length-push stack (some p))

  read_values :
      (p : PublicKey) (a b : ℕ)
      → read_line (at (stack ++ some p ∷ []) closed g) (logged a b)
        ≡ at
            (stack ++ some p ∷ [])
            closed
            (extend g (if p == burner_program then a ∷ b ∷ [] else []))
  unfolding read_line
  read_values p a b = elim (Bool-cases (p == burner_program)) [
    | inl e ↦ rw (top_is-push burner_program stack p, e) (ap (at _ closed) (pushed g))
    | inr e ↦ rw (top_is-push burner_program stack p, e) (ap (at _ closed) (sym (extend-nil g)))
  ]
    where
      pushed : (o : Option (List ℕ)) → push_values a b o ≡ extend o (a ∷ b ∷ [])
      pushed none = refl
      pushed (some group) = refl

log_of-call :
    (depth : ℕ) (p : PublicKey) (items : Items)
    → log_of depth (call p items)
      ≡ invoke p (depth + 1) ∷ (log_items (depth + 1) items ++ finished p ∷ [])
unfolding log_of
log_of-call depth p items = refl

log_items-values :
    (depth a b : ℕ) (items : Items)
    → log_items depth (values a b items) ≡ logged a b ∷ log_items depth items
unfolding log_items
log_items-values depth a b items = refl

log_items-text :
    (depth : ℕ) (items : Items) → log_items depth (text items) ≡ other ∷ log_items depth items
unfolding log_items
log_items-text depth items = refl

log_items-inner :
    (depth : ℕ) (c : Call) (items : Items)
    → log_items depth (inner c items) ≡ log_of depth c ++ log_items depth items
unfolding log_items
log_items-inner depth c items = refl

read_lines-cons :
    (s : State) (line : LogLine) (lines : List LogLine)
    → read_lines s (line ∷ lines) ≡ read_lines (read_line s line) lines
unfolding read_lines
read_lines-cons s line lines = refl

read_lines-nil : (s : State) → read_lines s [] ≡ s
unfolding read_lines
read_lines-nil s = refl

read_other : (s : State) → read_line s other ≡ s
unfolding read_line
read_other s = refl

not_empty : (xs : List (Option PublicKey)) (x : Option PublicKey) → length (xs ++ x ∷ []) ≢ 0
not_empty xs x = omega (arith, length-push xs x)

if-append :
    (test : Bool) (a b : ℕ) (rest : List ℕ)
    → (if test then a ∷ b ∷ [] else []) ++ rest ≡ (if test then a ∷ b ∷ rest else rest)
if-append true a b rest = refl
if-append false a b rest = refl

-- Reading the log of an inner call adds what the burner logged in it to an open group, and leaves
-- the stack as it was.
mutual
  unfolding log_of burned_in read_lines

  read_call :
      (c : Call) (stack : List (Option PublicKey)) (closed : List (List ℕ)) (g : Option (List ℕ))
      → length stack ≢ 0
      → read_lines (at stack closed g) (log_of (length stack) c)
        ≡ at stack closed (extend g (burned_in c))
  read_call (call p items) stack closed g h =
      rw
        (
          log_of-call (length stack) p items,
          read_lines-cons,
          read_invoke stack closed g p (length stack) refl h,
          read_lines-append (at (stack ++ some p ∷ []) closed g)
              (log_items (length stack + 1) items) (finished p ∷ []),
          read_items items p stack closed g,
        )
        (read_finished stack closed (extend g (burned_items p items)) p h)

  read_items :
      (items : Items) (p : PublicKey) (stack : List (Option PublicKey)) (closed : List (List ℕ))
      (g : Option (List ℕ))
      → read_lines (at (stack ++ some p ∷ []) closed g) (log_items (length stack + 1) items)
        ≡ at (stack ++ some p ∷ []) closed (extend g (burned_items p items))
  read_items done p stack closed g = ap (at _ closed) (sym (extend-nil g))
  read_items (values a b items) p stack closed g =
      rw (log_items-values, read_lines-cons, read_values stack closed g p a b)
        (read_items items p stack closed (extend g (if p == burner_program then a ∷ b ∷ [] else []))
          ∙ (ap (at _ closed) (
                extend-append g (if p == burner_program then a ∷ b ∷ [] else [])
                  (burned_items p items))
              ∙ ap (λ t. at (stack ++ some p ∷ []) closed (extend g t))
                  (if-append (p == burner_program) a b (burned_items p items))))
  read_items (text items) p stack closed g =
      rw (log_items-text, read_lines-cons, read_other (at (stack ++ some p ∷ []) closed g))
        (read_items items p stack closed g)
  read_items (inner c items) p stack closed g =
      rw
        (
          log_items-inner,
          read_lines-append (at (stack ++ some p ∷ []) closed g) (log_of (length stack + 1) c)
              (log_items (length stack + 1) items),
          subst
              (λ (n : ℕ).
                read_lines (at (stack ++ some p ∷ []) closed g) (log_of n c)
                ≡ at (stack ++ some p ∷ []) closed (extend g (burned_in c)))
              (length-push stack (some p))
              (read_call c (stack ++ some p ∷ []) closed g (not_empty stack (some p))),
        )
        (read_items items p stack closed (extend g (burned_in c))
          ∙ ap (at _ closed) (extend-append g (burned_in c) (burned_items p items)))

-- The group of a top-level call.
abbrev pub opened : PublicKey → List ℕ → List (List ℕ)
opened p group = if p == burner_program then group ∷ [] else []

module _ (p : PublicKey) (closed : List (List ℕ)) where
  open_burner :
      (p == burner_program) ≡ true
      → read_line (at [] closed none) (invoke p (0 + 1)) ≡ at (some p ∷ []) closed (some [])
  unfolding read_line
  open_burner e = rw e refl

  open_other :
      (p == burner_program) ≡ false
      → read_line (at [] closed none) (invoke p (0 + 1)) ≡ at (some p ∷ []) closed none
  unfolding read_line
  open_other e = rw e refl

  close_burner :
      (group : List ℕ)
      → (p == burner_program) ≡ true
      → read_line (at (some p ∷ []) closed (some group)) (finished p)
        ≡ at [] (closed ++ group ∷ []) none
  unfolding read_line
  close_burner group e = rw (e, ==-refl p) refl

  close_other :
      (p == burner_program) ≡ false
      → read_line (at (some p ∷ []) closed none) (finished p) ≡ at [] closed none
  unfolding read_line
  close_other e = rw (e, ==-refl p) refl

read_top :
    (p : PublicKey) (items : Items) (closed : List (List ℕ))
    → read_lines (at [] closed none) (log_of 0 (call p items))
      ≡ at [] (closed ++ opened p (burned_items p items)) none
read_top p items closed = elim (Bool-cases (p == burner_program)) [
  | inl e ↦
      rw
        (
          e,
          log_of-call 0 p items,
          read_lines-cons,
          open_burner p closed e,
          read_lines-append (at (some p ∷ []) closed (some [])) (log_items (0 + 1) items)
              (finished p ∷ []),
          read_items items p [] closed (some []),
          read_lines-cons,
          close_burner p closed (burned_items p items) e,
        )
        (read_lines-nil _)
  | inr e ↦
      rw
        (
          e,
          log_of-call 0 p items,
          read_lines-cons,
          open_other p closed e,
          read_lines-append (at (some p ∷ []) closed none) (log_items (0 + 1) items)
              (finished p ∷ []),
          read_items items p [] closed none,
          read_lines-cons,
          close_other p closed e,
        )
        (read_lines-nil _ ∙ ap (λ t. at [] t none) (sym (append-nil closed)))
]

unfoldable pub log_of_all : List Call → List LogLine
log_of_all [] = []
log_of_all (c ∷ cs) = log_of 0 c ++ log_of_all cs

-- One group for each top-level call of the burner.
unfoldable pub groups_of : List Call → List (List ℕ)
groups_of [] = []
groups_of (call p items ∷ cs) = opened p (burned_items p items) ++ groups_of cs

read_all :
    (cs : List Call) (closed : List (List ℕ))
    → read_lines (at [] closed none) (log_of_all cs) ≡ at [] (closed ++ groups_of cs) none
unfolding log_of_all groups_of read_lines
read_all [] closed = ap (λ t. at [] t none) (sym (append-nil closed))
read_all (call p items ∷ cs) closed =
    rw
      (
        read_lines-append (at [] closed none) (log_of 0 (call p items)) (log_of_all cs),
        read_top p items closed,
      )
      (read_all cs (closed ++ opened p (burned_items p items))
        ∙ ap (λ t. at [] t none) (append_assoc closed _ _))

-- On the log of any sequence of nested calls, the groups are those of the top-level calls of the
-- burner, in order, each with what the burner itself logged in the call and nothing that another
-- program logged; calls without such values have no group.
pub burn_log_groups-log_of_all :
    (cs : List Call) → burn_log_groups (log_of_all cs) ≡ keep_if is_filled (groups_of cs)
unfolding burn_log_groups
burn_log_groups-log_of_all cs = rw (read_all cs []) refl
