-- ===== src/Event/Command/Laws.antt =====
-- mptcore/event: the table of commands as a map from identifiers to handlers.
use mpt_base.Prelude.{
  ℕ, zero, suc, ◌≡◌, refl, sym, ap, ◌∙◌, Bool, true, false, ◌==◌, if◌then◌else◌, Option, none, some,
  List, [], ◌∷◌, ◌++◌, set, Result, ok, err, bad_operation, arith, Bool-cases, Option-cases, ◌⊎◌,
  inl, inr,
}
use mpt_base.Event.Command.{
  Command, Table, next_place, at_place, is_active, command_find, command_empty, command_get,
  place_command, command_set, Calls, ends,
}

-- The first active command of an identifier.
unfoldable pub lookup : List Command → ℕ → Option Command
lookup [] id = none
lookup (c ∷ cs) id = if is_active c id then some c else lookup cs id

at_place-next :
    (c : Command) (cs : List Command) (o : Option ℕ)
    → at_place (c ∷ cs) (next_place o) ≡ at_place cs o
at_place-next c cs none = refl
at_place-next c cs (some i) = refl

find-lookup : (cs : List Command) (id : ℕ) → at_place cs (command_find cs id) ≡ lookup cs id
unfolding command_find lookup
find-lookup [] id = refl
find-lookup (c ∷ cs) id = elim (Bool-cases (is_active c id)) [
  | inl e ↦ rw (e) refl
  | inr e ↦ rw (e) (at_place-next c cs (command_find cs id) ∙ find-lookup cs id)
]

next-some : (o : Option ℕ) (i : ℕ) → next_place o ≡ some i → (j : ℕ) × (o ≡ some j) × (i ≡ suc j)
next-some none i e = let no : ⊥ = ground (arith, e) in elim no [ ]
next-some (some j) i e = (j, refl, ground (arith, e))

-- The command that a lookup finds once `c` is set.
abbrev pub or_else : Command → (id : ℕ) → Option Command → Option Command
or_else c id o = if id == c.id then some c else o

-- An active command has one identifier, and so has a new one with a handler.
active-id :
    (d : Command) (id : ℕ) → is_active d id ≡ true → (other : ℕ) → is_active d other ≡ (other == id)
active-id d id a other = elim (Option-cases d.cmd) [
  | inl e ↦ ground (arith, e)
  | inr (h, e) ↦ (let same : id ≡ d.id = ground (arith, e) in rw (e, same) refl)
]

handler-active : (c : Command) (h : ℕ) → c.cmd ≡ some h → (id : ℕ) → is_active c id ≡ (id == c.id)
handler-active c h e id = rw (e) refl

-- The lookup in front of a list.
front-replaced :
    (d c : Command) (h : ℕ) (cs : List Command)
    → c.cmd ≡ some h
    → is_active d c.id ≡ true
    → (id : ℕ) → lookup (c ∷ cs) id ≡ or_else c id (lookup (d ∷ cs) id)
unfolding lookup
front-replaced d c h cs e a id =
    rw (handler-active c h e id, active-id d c.id a id) (if-same (id == c.id))
  where
    if-same :
        (b : Bool)
        → (if b then some c else lookup cs id)
          ≡ (if b then some c else if b then some d else lookup cs id)
    if-same true = refl
    if-same false = refl

front-kept :
    (d c : Command) (cs cs' : List Command)
    → is_active d c.id ≡ false
    → (id : ℕ) → lookup cs' id ≡ or_else c id (lookup cs id)
    → lookup (d ∷ cs') id ≡ or_else c id (lookup (d ∷ cs) id)
unfolding lookup
front-kept d c cs cs' a id rest = elim (Bool-cases (is_active d id)) [
  | inr b ↦ rw (b) rest
  | inl b ↦
      (let other : (id == c.id) ≡ false = differs (active-id d id b c.id) in rw (b, other) refl)
]
  where
    differs : is_active d c.id ≡ (c.id == id) → (id == c.id) ≡ false
    differs e = let apart : (c.id == id) ≡ false = sym e ∙ a in ground (arith, apart)

-- A command in the place of the active one of its identifier.
lookup-replaced :
    (cs : List Command) (c : Command) (h i : ℕ)
    → c.cmd ≡ some h
    → command_find cs c.id ≡ some i
    → (id : ℕ) → lookup (set cs i c) id ≡ or_else c id (lookup cs id)
unfolding command_find
lookup-replaced [] c h i e f id = let no : ⊥ = ground (arith, f) in elim no [ ]
lookup-replaced (d ∷ cs) c h zero e f id = elim (Bool-cases (is_active d c.id)) [
  | inl a ↦ front-replaced d c h cs e a id
  | inr a ↦
      (let (j, g, k) = next-some (command_find cs c.id) 0 (rw (a) at f) in
        let no : ⊥ = omega (arith, k) in elim no [ ])
]
lookup-replaced (d ∷ cs) c h (suc i) e f id = elim (Bool-cases (is_active d c.id)) [
  | inl a ↦ (let no : ⊥ = ground (arith, rw (a) at f) in elim no [ ])
  | inr a ↦
      (let (j, g, k) = next-some (command_find cs c.id) (suc i) (rw (a) at f) in
        let same : j ≡ i = omega (arith, k) in
        front-kept d c cs (set cs i c) a id (lookup-replaced cs c h i e (g ∙ ap some same) id))
]

-- A lookup that finds none, in front and behind.
none-front :
    (d : Command) (cs : List Command) (id : ℕ)
    → lookup (d ∷ cs) id ≡ none
    → (is_active d id ≡ false) × (lookup cs id ≡ none)
unfolding lookup
none-front d cs id n = elim (Bool-cases (is_active d id)) [
  | inl a ↦ (let no : ⊥ = ground (arith, rw (a) at n) in elim no [ ])
  | inr a ↦ (a, rw (a) at n)
]

-- A command in a place that is not in use.
lookup-filled :
    (cs : List Command) (c : Command) (h i : ℕ)
    → c.cmd ≡ some h
    → command_empty cs ≡ some i
    → lookup cs c.id ≡ none
    → (id : ℕ) → lookup (set cs i c) id ≡ or_else c id (lookup cs id)
unfolding command_empty lookup
lookup-filled [] c h i e f n id = let no : ⊥ = ground (arith, f) in elim no [ ]
lookup-filled (d ∷ cs) c h zero e f n id = elim (Option-cases d.cmd) [
  | inl a ↦ rw (handler-active c h e id, a) refl
  | inr (k, a) ↦
      (let (j, g, l) = next-some (command_empty cs) 0 (rw (a) at f) in
        let no : ⊥ = omega (arith, l) in elim no [ ])
]
lookup-filled (d ∷ cs) c h (suc i) e f n id = elim (Option-cases d.cmd) [
  | inl a ↦ (let no : ⊥ = ground (arith, rw (a) at f) in elim no [ ])
  | inr (k, a) ↦
      (let (j, g, l) = next-some (command_empty cs) (suc i) (rw (a) at f) in
        let same : j ≡ i = omega (arith, l) in
        let (q, rest) = none-front d cs c.id n in
        front-kept d c cs (set cs i c) q id (lookup-filled cs c h i e (g ∙ ap some same) rest id))
]

lookup-first :
    (c : Command) (h : ℕ)
    → c.cmd ≡ some h
    → (id : ℕ) → lookup (c ∷ []) id ≡ or_else c id (lookup [] id)
unfolding lookup
lookup-first c h e id = rw (handler-active c h e id) refl

-- A command behind all others.
lookup-appended :
    (cs : List Command) (c : Command) (h : ℕ)
    → c.cmd ≡ some h
    → lookup cs c.id ≡ none
    → (id : ℕ) → lookup (cs ++ c ∷ []) id ≡ or_else c id (lookup cs id)
lookup-appended [] c h e n id = lookup-first c h e id
lookup-appended (d ∷ cs) c h e n id =
    let (q, rest) = none-front d cs c.id n in
    front-kept d c cs (cs ++ c ∷ []) q id (lookup-appended cs c h e rest id)

get-lookup : (cs : List Command) (id : ℕ) → command_get (some cs) id ≡ lookup cs id
unfolding command_get
get-lookup cs id = find-lookup cs id

none_found : (cs : List Command) (id : ℕ) → command_find cs id ≡ none → lookup cs id ≡ none
none_found cs id f = sym (find-lookup cs id) ∙ ap (at_place cs) f

-- What setting a command ends with.
pub data Sets (s : Table) (c : Command) (room : Bool) (r : Table × Result ℕ × Calls) : Type 0 where
  not_set : room ≡ false → r ≡ (s, err bad_operation, []) → Sets s c room r
  is_set :
      (t : Table) (n : ℕ)
      → r ≡ (t, ok n, ends (command_get s c.id))
      → ((id : ℕ) → command_get t id ≡ (if id == c.id then some c else command_get s id))
      → Sets s c room r

module _ (cs : List Command) (c : Command) (h : ℕ) (e : c.cmd ≡ some h) (room : Bool) where
  gets :
      (ds : List Command)
      → ((id : ℕ) → lookup ds id ≡ or_else c id (lookup cs id))
      → (id : ℕ)
      → command_get (some ds) id ≡ (if id == c.id then some c else command_get (some cs) id)
  gets ds f id = rw (get-lookup ds id, get-lookup cs id) (f id)

  placed :
      lookup cs c.id ≡ none
      → ((room ≡ false) × (place_command cs c room ≡ (cs, err bad_operation)))
        ⊎ ((ds : List Command) × (n : ℕ) × (place_command cs c room ≡ (ds, ok n))
            × ((id : ℕ) → lookup ds id ≡ or_else c id (lookup cs id)))
  unfolding place_command
  placed n = elim (Option-cases (command_empty cs)) [
    | inr (i, f) ↦ inr (set cs i c, 0, rw (place_command, f) refl, lookup-filled cs c h i e f n)
    | inl f ↦ elim (Bool-cases room) [
      | inl g ↦ inr (cs ++ c ∷ [], 1, rw (place_command, f, g) refl, lookup-appended cs c h e n)
      | inr g ↦ inl (g, rw (place_command, f, g) refl)
    ]
  ]

one :
    (c : Command) (h : ℕ)
    → c.cmd ≡ some h
    → (id : ℕ) → command_get (some (c ∷ [])) id ≡ or_else c id none
unfolding lookup
one c h e id = get-lookup (c ∷ []) id ∙ lookup-first c h e id

-- A command set with a handler is the one that is got by its identifier from then on, all others
-- stay, and the handler that it replaces is ended; or nothing changes, only without memory.
pub command_set-Sets :
    (s : Table) (id h arg : ℕ) (room : Bool)
    → Sets s (record { id = id; cmd = some h; arg = arg }) room (command_set s id (some h) arg room)
unfolding command_set command_get command_find lookup
command_set-Sets none id h arg room = elim (Bool-cases room) [
  | inl g ↦
      is_set (some (record { id = id; cmd = some h; arg = arg } ∷ [])) 1 (rw (g) refl)
        (one (record { id = id; cmd = some h; arg = arg }) h refl)
  | inr g ↦ not_set g (rw (g) refl)
]
command_set-Sets (some cs) id h arg room = elim (Option-cases (command_find cs id)) [
  | inr (i, f) ↦
      is_set (some (set cs i (record { id = id; cmd = some h; arg = arg }))) 0
        (rw (command_set, f) refl)
        (gets cs (record { id = id; cmd = some h; arg = arg }) h refl room
          (set cs i (record { id = id; cmd = some h; arg = arg }))
          (lookup-replaced cs (record { id = id; cmd = some h; arg = arg }) h i refl f))
  | inl f ↦
      elim (placed cs (record { id = id; cmd = some h; arg = arg }) h refl room
        (none_found cs id f)) [
          | inl (g, q) ↦ not_set g (rw (command_set, f, q) refl)
          | inr (ds, n, q, looks) ↦
              is_set (some ds) n (rw (command_set, f, q) refl)
                (gets cs (record { id = id; cmd = some h; arg = arg }) h refl room ds looks)
        ]
]
