-- ===== src/Commands/Names/Laws.antt =====
-- Names that are set are found.
use psingthreadlib.Prelude.{
  ℕ, ◌≡◌, ◌≢◌, ap, sym, ◌∙◌, true, ◌||◌, some, [], ◌∷◌, Bytes, arith, ==_iff,
}
use psingthreadlib.Prelude.Outcome.{returns}
use psingthreadlib.Value.{Kind, eq_kind, nothing, string, shared, job, trigger, threadpool}
use psingthreadlib.Commands.Command.{done, check_argc, check_arg}
use psingthreadlib.Commands.Names.{Names, rename, set_shared_name, get_shared_name}

get_shared_name_lem :
    (kind : Kind) (k : ℕ) (names : Names)
    → (eq_kind kind job || eq_kind kind trigger || eq_kind kind threadpool) ≡ true
    → get_shared_name (shared kind (some k) ∷ []) names ≡ returns (done (string (names k)))
unfolding get_shared_name check_argc
get_shared_name_lem kind k names h = ground arith

rename_other : (o k : ℕ) (name : Bytes) (names : Names) → k ≢ o → rename o name names k ≡ names k
rename_other o k name names n = ground (arith, ==_iff o k)

-- `setSharedName` on a job, a trigger or a thread pool succeeds; `getSharedName` then gives the name
-- for that object, and for every other object what it gave before.
pub set_shared_name-get_shared_name :
    (kind : Kind) (o : ℕ) (name : Bytes) (names : Names)
    → (eq_kind kind job || eq_kind kind trigger || eq_kind kind threadpool) ≡ true
    → (after : Names) × (set_shared_name (shared kind (some o) ∷ string name ∷ []) names
        ≡ returns (done nothing, after))
      × (get_shared_name (shared kind (some o) ∷ []) after ≡ returns (done (string name)))
      × ((k : ℕ)
          → k ≢ o
          → get_shared_name (shared kind (some k) ∷ []) after
            ≡ get_shared_name (shared kind (some k) ∷ []) names)
unfolding set_shared_name get_shared_name check_argc check_arg
set_shared_name-get_shared_name kind o name names h = (
  rename o name names,
  ground arith,
  ground (arith, ==_iff o o),
  λ k n.
      get_shared_name_lem kind k (rename o name names) h
      ∙ ap (λ b. returns (done (string b))) (rename_other o k name names n)
      ∙ sym (get_shared_name_lem kind k names h),
)
