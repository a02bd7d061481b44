-- ===== src/Shared/Registry/Laws.antt =====
-- The table of global objects: one object for each name.
use psingthreadlib.Prelude.{
  ℕ, ◌≡◌, refl, sym, ◌∙◌, inl, inr, true, false, Option, none, some, ◌∷◌, if◌then◌else◌, Bytes,
  Option-cases, Bool-cases, subst, eq_bytes, eq_bytes_iff, arith,
}
use psingthreadlib.Prelude.Outcome.{Outcome, returns}
use psingthreadlib.Value.{Kind, eq_kind}
use psingthreadlib.Sync.Lock.{Lock, new_lock}
use psingthreadlib.Shared.Guard.Laws.{free_lock}
use psingthreadlib.Shared.Registry.{
  Names, Body, World, find_name, make_object, look_or_make, make_shared_object, find_shared_object,
  make_global, find_global,
}

make_shared_object-free :
    (self : ℕ) (type : Kind) (name : Bytes) (body : Body) (table : Names) (l : Lock) (w : World)
    → l ≡ new_lock false
    → make_shared_object self type name body table l w
      ≡ returns (
        (look_or_make type name body table w).0,
        (look_or_make type name body table w).1,
        l,
        (look_or_make type name body table w).2,
      )
unfolding make_shared_object
make_shared_object-free self type name body table l w free =
    let (held, e, e') = free_lock self in rw (free, e, e') refl

find_shared_object-free :
    (self : ℕ) (name : Bytes) (table : Names) (l : Lock)
    → l ≡ new_lock false
    → find_shared_object self name table l ≡ returns (find_name name table, l)
unfolding find_shared_object
find_shared_object-free self name table l free =
    let (held, e, e') = free_lock self in rw (free, e, e') refl

look-found :
    (type : Kind) (name : Bytes) (body : Body) (table : Names) (w : World) (o : ℕ)
    → find_name name table ≡ some o
    → look_or_make type name body table w
      ≡ (if eq_kind (w.objects o).type type then some o else none, table, w)
unfolding look_or_make
look-found type name body table w o h = rw (look_or_make, h) refl

look-fresh :
    (type : Kind) (name : Bytes) (body : Body) (table : Names) (w : World)
    → find_name name table ≡ none
    → look_or_make type name body table w
      ≡ (some w.allocated, (name, w.allocated) ∷ table, make_object type name body w)
unfolding look_or_make
look-fresh type name body table w h = rw (look_or_make, h) refl

-- `makeSharedObject` when nobody is inside.
module _ (self : ℕ) (type : Kind) (name : Bytes) (body : Body) (w : World)
    (free : w.global_objects_lock ≡ new_lock false) where
  make_global-found :
      (o : ℕ)
      → find_name name w.global_objects ≡ some o
      → make_global self type name body w
        ≡ returns (if eq_kind (w.objects o).type type then some o else none, w)
  unfolding make_global
  make_global-found o h =
      rw
        (
          make_shared_object-free self type name body w.global_objects w.global_objects_lock w free,
          look-found type name body w.global_objects w o h,
        )
        refl

  abbrev extended : World
  extended = record (make_object type name body w) {
    global_objects = (name, w.allocated) ∷ w.global_objects;
  }

  make_global-fresh :
      find_name name w.global_objects ≡ none
      → make_global self type name body w ≡ returns (some w.allocated, extended)
  unfolding make_global make_object
  make_global-fresh h =
      rw
        (
          make_shared_object-free self type name body w.global_objects w.global_objects_lock w free,
          look-fresh type name body w.global_objects w h,
        )
        refl

  find_global-free : find_global self name w ≡ returns (find_name name w.global_objects, w)
  unfolding find_global
  find_global-free =
      rw (find_shared_object-free self name w.global_objects w.global_objects_lock free) refl

eq_kind-same : (a b c : Kind) → eq_kind a b ≡ true → eq_kind a c ≡ eq_kind b c
eq_kind-same a b c h = ground arith

eq_bytes_refl : (s : Bytes) → eq_bytes s s ≡ true
eq_bytes_refl s = (eq_bytes_iff s s).1 refl

-- What a call that gave an object leaves: the lock free, and the name with an object of the type.
record Holds (name : Bytes) (type : Kind) (o : ℕ) (w : World) : Type 0 where
  free : w.global_objects_lock ≡ new_lock false
  named : find_name name w.global_objects ≡ some o
  typed : (c : Kind) → eq_kind (w.objects o).type c ≡ eq_kind type c

abbrev HoldsBoth : Bytes → Kind → ℕ × World → Type 0
HoldsBoth name type (o, w) = Holds name type o w

returned :
    (name : Bytes) (type : Kind) (a o : ℕ) (u w : World)
    → ◌≡◌ {A = Outcome (Option ℕ × World)} (returns (some a, u)) (returns (some o, w))
    → Holds name type a u
    → Holds name type o w
returned name type a o u w e h =
    let same : ◌≡◌ {A = ℕ × World} (a, u) (o, w) = cc in subst (HoldsBoth name type) same h

module _ (self : ℕ) (type : Kind) (name : Bytes) (body : Body) (w : World)
    (free : w.global_objects_lock ≡ new_lock false) where
  extended-Holds : Holds name type w.allocated (extended self type name body w free)
  unfolding make_object find_name
  extended-Holds = record {
    free = free;
    named = rw (eq_bytes_refl name) refl;
    typed = λ c. ground arith;
  }

  found-Holds :
      (o : ℕ)
      → find_name name w.global_objects ≡ some o
      → eq_kind (w.objects o).type type ≡ true
      → Holds name type o w
  found-Holds o h k = record {
    free = free;
    named = h;
    typed = λ c. eq_kind-same (w.objects o).type type c k;
  }

  make_global-Holds :
      {o : ℕ} {w' : World}
      → make_global self type name body w ≡ returns (some o, w')
      → Holds name type o w'
  make_global-Holds {o} {w'} e = elim (Option-cases (find_name name w.global_objects)) [
    | inl h ↦
        returned name type w.allocated o (extended self type name body w free) w'
          (sym (make_global-fresh self type name body w free h) ∙ e) extended-Holds
    | inr (o1, h) ↦ elim (Bool-cases (eq_kind (w.objects o1).type type)) [
      | inl k ↦ returned name type o1 o w w' (given o1 h k ∙ e) (found-Holds o1 h k)
      | inr k ↦ absurd (clash o1 h k e)
    ]
  ]
    where
      given :
          (o1 : ℕ)
          → find_name name w.global_objects ≡ some o1
          → eq_kind (w.objects o1).type type ≡ true
          → returns (some o1, w) ≡ make_global self type name body w
      given o1 h k = sym (make_global-found self type name body w free o1 h ∙ (rw k refl))

      clash :
          (o1 : ℕ)
          → find_name name w.global_objects ≡ some o1
          → eq_kind (w.objects o1).type type ≡ false
          → make_global self type name body w ≡ returns (some o, w')
          → ⊥
      clash o1 h k p =
          let q : make_global self type name body w ≡ returns (none, w) =
            make_global-found self type name body w free o1 h ∙ (rw k refl) in
          cc

-- Once a call has given an object for a name and a type, with nobody else inside the table, every
-- thread that asks for the name finds that object; one that asks for it with the same type gets it
-- again, and with another type a null pointer; and none of these calls changes anything.
pub make_again :
    (a b : ℕ) (type type' : Kind) (name : Bytes) (body body' : Body) (w : World) {o : ℕ}
    {w' : World}
    → w.global_objects_lock ≡ new_lock false
    → make_global a type name body w ≡ returns (some o, w')
    → (find_global b name w' ≡ returns (some o, w'))
      × (make_global b type' name body' w'
          ≡ returns (if eq_kind type type' then some o else none, w'))
make_again a b type type' name body body' w {o} {w'} free e =
    let h = make_global-Holds a type name body w free e in
    (
      find_global-free b type name body w' h.free ∙ (rw h.named refl),
      make_global-found b type' name body' w' h.free o h.named ∙ (rw (h.typed type') refl),
    )
