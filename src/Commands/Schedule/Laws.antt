-- ===== src/Commands/Schedule/Laws.antt =====
-- What `scheduleJob` reads of its arguments.
use psingthreadlib.Prelude.{
  ℕ, zero, suc, ◌+◌, ◌≡◌, refl, sym, ap, ◌∙◌, ◌⊎◌, inl, inr, Bool, true, false, Option, none, some,
  List, [], ◌∷◌, ◌++◌, String, Option-cases, if◌then◌else◌,
}
use psingthreadlib.Prelude.Int.{ℤ}
use psingthreadlib.Prelude.Outcome.{Outcome}
use psingthreadlib.Sched.State.{Sched}
use psingthreadlib.Sched.Trigger.{Interp}
use psingthreadlib.Value.{
  Value, Values, nil, cons, nothing, int, string, list, command, def, intmat, shared, other,
  threadpool,
}
use psingthreadlib.Commands.Command.{
  Verdict, Tag, int_cmd, string_cmd, list_cmd, command_cmd, of_kind, has_tag, new_command, test_arg,
}
use psingthreadlib.Commands.Jobs.{abort, in_pool, int_at, drop, count}
use psingthreadlib.Commands.Schedule.{
  is_dependency, pointer, not_jobs, schedule_named, entries, Named, misnamed, these_jobs, but_last,
  named, dependencies, schedule_in, schedule_job_command,
}

-- A list of the interpreter with these entries.
abbrev pub listed : List Value → Values
listed [] = nil
listed (v ∷ vs) = cons v (listed vs)

but_last-listed : (vs : List Value) (v : Value) → but_last (listed (vs ++ v ∷ [])) ≡ vs
unfolding but_last
but_last-listed [] v = refl
but_last-listed (a ∷ []) v = refl
but_last-listed (a ∷ b ∷ vs) v = ap (λ x. a ∷ x) (but_last-listed (b ∷ vs) v)

-- Arguments that are the same, or lists that differ in their last entries only.
abbrev pub Agree : Value → Value → Type 0
Agree a b =
    (a ≡ b)
    ⊎ ((vs : List Value) × (v : Value) × (w : Value) × (a ≡ list (listed (vs ++ v ∷ [])))
        × (b ≡ list (listed (vs ++ w ∷ []))))

abbrev pub AllAgree : List Value → List Value → Type 0
AllAgree [] [] = Unit
AllAgree (a ∷ xs) (b ∷ ys) = Agree a b × AllAgree xs ys
AllAgree _ _ = ⊥

test_arg-Agree :
    (tag : Tag) (i : ℕ) (name : String) (xs ys : List Value)
    → AllAgree xs ys
    → test_arg i tag (new_command name xs) ≡ test_arg i tag (new_command name ys)
test_arg-Agree tag i name [] [] h = refl
test_arg-Agree tag i name [] (b ∷ ys) h = absurd h
test_arg-Agree tag i name (a ∷ xs) [] h = absurd h
test_arg-Agree tag zero name (a ∷ xs) (b ∷ ys) (inl e, h) = ap (has_tag tag) e
test_arg-Agree tag zero name (a ∷ xs) (b ∷ ys) (inr (vs, v, w, ea, eb), h) =
    rw (ea, eb) (list_tag tag (listed (vs ++ v ∷ [])) (listed (vs ++ w ∷ [])))
  where
    list_tag : (tag : Tag) (l m : Values) → has_tag tag (list l) ≡ has_tag tag (list m)
    list_tag int_cmd l m = refl
    list_tag string_cmd l m = refl
    list_tag list_cmd l m = refl
    list_tag command_cmd l m = refl
    list_tag (of_kind k) l m = refl
test_arg-Agree tag (suc i) name (a ∷ xs) (b ∷ ys) h = test_arg-Agree tag i name xs ys h.1

int_at-Agree :
    (with_prio : Bool) (i : ℕ) (name : String) (xs ys : List Value)
    → AllAgree xs ys
    → int_at with_prio i (new_command name xs) ≡ int_at with_prio i (new_command name ys)
int_at-Agree false i name xs ys h = refl
int_at-Agree true i name [] [] h = refl
int_at-Agree true i name [] (b ∷ ys) h = absurd h
int_at-Agree true i name (a ∷ xs) [] h = absurd h
int_at-Agree true zero name (a ∷ xs) (b ∷ ys) (inl e, h) =
    ap (λ v. int_at true 0 (new_command name (v ∷ []))) e
int_at-Agree true zero name (a ∷ xs) (b ∷ ys) (inr (vs, v, w, ea, eb), h) = rw (ea, eb) refl
int_at-Agree true (suc i) name (a ∷ xs) (b ∷ ys) h = int_at-Agree true i name xs ys h.1

drop-Agree : (n : ℕ) (xs ys : List Value) → AllAgree xs ys → AllAgree (drop n xs) (drop n ys)
drop-Agree zero xs ys h = h
drop-Agree (suc n) [] [] h = tt
drop-Agree (suc n) [] (b ∷ ys) h = absurd h
drop-Agree (suc n) (a ∷ xs) [] h = absurd h
drop-Agree (suc n) (a ∷ xs) (b ∷ ys) h = drop-Agree n xs ys h.1

-- The dependencies that one argument adds in front of those of the arguments behind it.
abbrev with_rest : Value → Option (List (Option ℕ)) → Option (List (Option ℕ))
with_rest (list l) rest = elim (entries (but_last l)) [
  | none ↦ none
  | some ds ↦ elim rest [ none ↦ none | some es ↦ some (ds ++ es) ]
]
with_rest v rest = elim rest [
  | none ↦ none
  | some es ↦ some (if is_dependency v then pointer v ∷ es else es)
]

dependencies-with_rest :
    (a : Value) (xs : List Value) → dependencies (a ∷ xs) ≡ with_rest a (dependencies xs)
unfolding dependencies
dependencies-with_rest nothing xs = refl
dependencies-with_rest (int n) xs = refl
dependencies-with_rest (string s) xs = refl
dependencies-with_rest (list l) xs = refl
dependencies-with_rest (command op l) xs = refl
dependencies-with_rest (def s) xs = refl
dependencies-with_rest (intmat r c l) xs = refl
dependencies-with_rest (shared k o) xs = refl
dependencies-with_rest (other n) xs = refl

with_rest-Agree :
    (a b : Value) (rest : Option (List (Option ℕ)))
    → Agree a b
    → with_rest a rest ≡ with_rest b rest
with_rest-Agree a b rest (inl e) = ap (λ v. with_rest v rest) e
with_rest-Agree a b rest (inr (vs, v, w, ea, eb)) =
    rw (ea, eb)
      (ap
        (λ es. elim (entries es) [
          | none ↦ none
          | some ds ↦ elim rest [ none ↦ none | some more ↦ some (ds ++ more) ]
        ])
        (but_last-listed vs v ∙ sym (but_last-listed vs w)))

dependencies-Agree : (xs ys : List Value) → AllAgree xs ys → dependencies xs ≡ dependencies ys
dependencies-Agree [] [] h = refl
dependencies-Agree [] (b ∷ ys) h = absurd h
dependencies-Agree (a ∷ xs) [] h = absurd h
dependencies-Agree (a ∷ xs) (b ∷ ys) h =
    dependencies-with_rest a xs
    ∙ with_rest-Agree a b (dependencies xs) h.0
    ∙ ap (with_rest b) (dependencies-Agree xs ys h.1)
    ∙ sym (dependencies-with_rest b ys)

module _ (interp : Interp) where
  named-Agree : (a b : Value) (s : Sched) → Agree a b → named interp a s ≡ named interp b s
  unfolding named
  named-Agree a b s (inl e) = ap (λ v. named interp v s) e
  named-Agree a b s (inr (vs, v, w, ea, eb)) =
      rw (ea, eb)
        (list_same (listed (vs ++ v ∷ [])) (listed (vs ++ w ∷ []))
          (but_last-listed vs v ∙ sym (but_last-listed vs w)))
    where
      list_same :
          (l m : Values)
          → but_last l ≡ but_last m
          → named interp (list l) s ≡ named interp (list m) s
      list_same l m e = rw e refl

  abbrev scheduled : Option ℕ → ℤ → List Value → Sched → Outcome (Verdict × Sched)
  scheduled pool prio args s = elim args [
    | [] ↦ abort not_jobs s
    | a ∷ rest ↦ elim (named interp a s) [
      | misnamed e ↦ abort e s
      | these_jobs js s' ↦ elim (dependencies rest) [
        | none ↦ abort "illegal dependency" s'
        | some ds ↦ schedule_named interp pool prio js ds s'
      ]
    ]
  ]

  abbrev on_named :
      Option ℕ → ℤ → Named → Option (List (Option ℕ)) → Sched → Outcome (Verdict × Sched)
  on_named pool prio n deps s = elim n [
    | misnamed e ↦ abort e s
    | these_jobs js s' ↦ elim deps [
      | none ↦ abort "illegal dependency" s'
      | some ds ↦ schedule_named interp pool prio js ds s'
    ]
  ]

  scheduled-Agree :
      (pool : Option ℕ) (prio : ℤ) (xs ys : List Value) (s : Sched)
      → AllAgree xs ys
      → scheduled pool prio xs s ≡ scheduled pool prio ys s
  scheduled-Agree pool prio [] [] s h = refl
  scheduled-Agree pool prio [] (b ∷ ys) s h = absurd h
  scheduled-Agree pool prio (a ∷ xs) [] s h = absurd h
  scheduled-Agree pool prio (a ∷ xs) (b ∷ ys) s h =
      ap (λ n. on_named pool prio n (dependencies xs) s) (named-Agree a b s h.0)
      ∙ ap (λ ds. on_named pool prio (named interp b s) ds s) (dependencies-Agree xs ys h.1)

  schedule_in-Agree :
      (pool : Option ℕ) (with_pool : Bool) (xs ys : List Value) (s : Sched)
      → AllAgree xs ys
      → schedule_in interp pool with_pool (new_command "scheduleJob" xs) s
        ≡ schedule_in interp pool with_pool (new_command "scheduleJob" ys) s
  unfolding schedule_in
  schedule_in-Agree pool with_pool xs ys s h =
      let i = count with_pool in
      let prio_of = test_arg i int_cmd (new_command "scheduleJob" ys) in
      ap (λ b. scheduled pool (int_at b i (new_command "scheduleJob" xs)) (drop (i + count b) xs) s)
        (test_arg-Agree int_cmd i "scheduleJob" xs ys h)
      ∙ ap (λ prio. scheduled pool prio (drop (i + count prio_of) xs) s)
          (int_at-Agree prio_of i "scheduleJob" xs ys h)
      ∙ scheduled-Agree pool (int_at prio_of i (new_command "scheduleJob" ys))
          (drop (i + count prio_of) xs) (drop (i + count prio_of) ys) s
          (drop-Agree (i + count prio_of) xs ys h)

  -- `scheduleJob`, with or without a pool and a priority in front, does not look at the last entry of
  -- a list, be it the list of jobs or one of any number of lists of dependencies: arguments that are
  -- the same but for the last entries of lists give the same result and the same pool.
  pub last_entry_ignored :
      (current : Option ℕ) (xs ys : List Value) (s : Sched)
      → AllAgree xs ys
      → schedule_job_command interp current xs s ≡ schedule_job_command interp current ys s
  unfolding schedule_job_command
  last_entry_ignored current [] [] s h = refl
  last_entry_ignored current [] (b ∷ ys) s h = absurd h
  last_entry_ignored current (a ∷ xs) [] s h = absurd h
  last_entry_ignored current (a ∷ xs) (b ∷ ys) s h =
      ap (λ p. on_pool p (pointer a) (a ∷ xs))
        (test_arg-Agree (of_kind threadpool) 0 "scheduleJob" (a ∷ xs) (b ∷ ys) h)
      ∙ ap (λ o. on_pool with_pool o (a ∷ xs)) (pointer-Agree a b h.0)
      ∙ same with_pool (pointer b)
    where
      with_pool : Bool
      with_pool = test_arg 0 (of_kind threadpool) (new_command "scheduleJob" (b ∷ ys))

      on_pool : Bool → Option ℕ → List Value → Outcome (Verdict × Sched)
      on_pool wp o args =
          let cmd = new_command "scheduleJob" args in
          if wp
          then elim o [
            | none ↦ schedule_in interp none true cmd s
            | some p ↦ in_pool p s (schedule_in interp (some p) true cmd s)
          ]
          else elim current [
            | none ↦ abort "no current threadpool defined" s
            | some p ↦ in_pool p s (schedule_in interp (some p) false cmd s)
          ]

      pointer-Agree : (v w : Value) → Agree v w → pointer v ≡ pointer w
      pointer-Agree v w (inl e) = ap pointer e
      pointer-Agree v w (inr (vs, x, y, ev, ew)) = rw (ev, ew) refl

      same : (wp : Bool) (o : Option ℕ) → on_pool wp o (a ∷ xs) ≡ on_pool wp o (b ∷ ys)
      same true none = schedule_in-Agree none true (a ∷ xs) (b ∷ ys) s h
      same true (some p) = ap (in_pool p s) (schedule_in-Agree (some p) true (a ∷ xs) (b ∷ ys) s h)
      same false o = elim (Option-cases current) [
        | inl e ↦ rw e refl
        | inr (p, e) ↦
            rw e (ap (in_pool p s) (schedule_in-Agree (some p) false (a ∷ xs) (b ∷ ys) s h))
      ]
