-- ===== src/Commands/Regions.antt =====
-- shared.cc: `lockRegion`, `regionLock` and `unlockRegion`.
use psingthreadlib.Prelude.{ℕ, not, some, List}
use psingthreadlib.Prelude.Outcome.{returns, faults, ◌>>=◌, deref}
use psingthreadlib.Value.{Value, nothing, shared, region, regionlock}
use psingthreadlib.Sync.Lock.{Lock, is_locked}
use psingthreadlib.Shared.Guard.{lock_region, unlock_region}
use psingthreadlib.Shared.Registry.{World, Names, a_region, store_body, new_shared}
use psingthreadlib.Commands.Reply.{
  no_region, message, gives, Answer, with_one, require, is_kind, object_of,
}

-- A pointer to a region that was not initialised is null, and read all the same.
abbrev pub with_region : Value → World → (ℕ → Lock → Names → Answer) → Answer
with_region a w k = deref (object_of a) >>= λ r. elim ((w.objects r).body) [
  | a_region l names ↦ k r l names
  | _ ↦ faults
]

unfoldable pub lock_region_command : ℕ → List Value → World → Answer
lock_region_command self args w = with_one "lockRegion" args w (λ a.
    require (is_kind region a) (no_region "lockRegion") w (
      with_region a w (λ r l names.
        require (not (is_locked self l)) (message "lockRegion: region is already locked") w (
          lock_region self l >>= λ l'.
          returns (gives nothing, store_body r (a_region l' names) w)))))

-- `regionLock` reports under the name of `lockRegion`.
unfoldable pub region_lock : ℕ → List Value → World → Answer
region_lock self args w = with_one "lockRegion" args w (λ a.
    require (is_kind region a) (no_region "lockRegion") w (
      with_region a w (λ r l names.
        require (not (is_locked self l)) (message "lockRegion: region is already locked") w (
          lock_region self l >>= λ l'. returns (
            gives (shared regionlock (some r)),
            new_shared r (store_body r (a_region l' names) w),
          )))))

unfoldable pub unlock_region_command : ℕ → List Value → World → Answer
unlock_region_command self args w = with_one "unlockRegion" args w (λ a.
    require (is_kind region a) (no_region "unlockRegion") w (
      with_region a w (λ r l names.
        require (is_locked self l) (message "unlockRegion: region is not locked") w (
          unlock_region self l >>= λ l'.
          returns (gives nothing, store_body r (a_region l' names) w)))))
