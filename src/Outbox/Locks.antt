-- ===== src/Outbox/Locks.antt =====
-- Claims of an event by its lock file: `try_acquire` and `release` of commit/outbox_store.py.
use rtc_retrieval_token_cutt.Base.{ℕ, ◌+◌, ◌<◌, ◌≡◌, ◌≢◌, ◌↔◌, true, false, some, Text, arith, ok}
use rtc_retrieval_token_cutt.Outbox.Event.{OutboxEvent, lock_file, aware, microseconds}
use rtc_retrieval_token_cutt.Outbox.Client.{AgfsClient, AgfsLaws}
use rtc_retrieval_token_cutt.Outbox.Paths.{lock_path}
use rtc_retrieval_token_cutt.Outbox.Store.{node_path, try_acquire, release}

module _ (c : AgfsClient) (laws : AgfsLaws c) (unquote : Text → Text) (mount_prefix : Text)
    (event : OutboxEvent) (node_uri : Text) where
  abbrev lock : Text
  lock = lock_path (node_path c unquote mount_prefix node_uri) event.event_id

  -- What a successful claim leaves in the lock file.
  pub read-try_acquire :
      (worker_id : Text) (timeout now : ℕ) (f : c.Files) {f' : c.Files}
      → try_acquire c unquote mount_prefix event node_uri worker_id timeout now f ≡ (ok true, f')
      → c.read f' lock ≡ some (lock_file worker_id (aware now))
  unfolding try_acquire
  read-try_acquire w timeout now f h =
      ground (arith, laws.read-write f lock (lock_file w (aware now)))

  -- After a successful claim at `t₀`, a second claim at `t₁` with the same timeout is refused
  -- exactly as long as fewer than `timeout` seconds have gone by.
  pub second_claim :
      (a b : Text) (timeout t₀ t₁ : ℕ) (f f' : c.Files)
      → try_acquire c unquote mount_prefix event node_uri a timeout t₀ f ≡ (ok true, f')
      → ((try_acquire c unquote mount_prefix event node_uri b timeout t₁ f').0 ≡ ok false)
        ↔ (t₁ < t₀ + microseconds timeout)
  unfolding try_acquire
  second_claim a b timeout t₀ t₁ f f' h = ground (arith, read-try_acquire a timeout t₀ f h)

  -- A refused claim changes no file.
  pub refused_claim :
      (worker_id : Text) (timeout now : ℕ) (f f' : c.Files)
      → try_acquire c unquote mount_prefix event node_uri worker_id timeout now f ≡ (ok false, f')
      → f' ≡ f
  unfolding try_acquire
  refused_claim w timeout now f f' h = ground arith

  -- Once the lock file is removed, no claim is refused, whoever held it and whenever.
  pub claim_after_release :
      (worker_id : Text) (timeout now : ℕ) (f : c.Files)
      → (c.rm f lock).0 ≡ true
      → (try_acquire c unquote mount_prefix event node_uri worker_id timeout now
          (release c unquote mount_prefix event node_uri f)).0
        ≢ ok false
  unfolding try_acquire release
  claim_after_release w timeout now f h = ground (arith, laws.read-rm f lock)
