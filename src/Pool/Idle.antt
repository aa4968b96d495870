-- ===== src/Pool/Idle.antt =====
-- The sweep of the idle sessions, `cleanupIdleConnections`.
use rclabs_api.Prelude.{
  ℕ, suc, ◌+◌, ◌≡◌, refl, sym, ap, ◌∙◌, Bool, true, false, not, List, [], ◌∷◌, ◌++◌, arith, leb,
  length, keep_if, keep_if-true, keep_if-false, append_assoc, append-nil, if◌then◌else◌, ◌==◌,
}
use rclabs_api.Pool.Sessions.{Session, do_close, handle_connection_timeout}
use rclabs_api.Pool.State.{Pool}
use rclabs_api.Pool.Requests.{seconds_since, change}
use rclabs_api.Pool.{should_cleanup_session, cleanup_sessions, cleanup_idle_connections}

-- What a sweep of the sessions `rest` after `kept` must come to, where `b` says which are closed.
abbrev pub SweptIdle : (ℕ → Bool) → List ℕ → List ℕ → ℕ → Pool × ℕ → Type 0
SweptIdle b rest kept cleaned x =
    (x.0.idle_connections ≡ kept ++ keep_if (λ i. not (b i)) rest)
    × (x.1 ≡ cleaned + length (keep_if b rest))

either_activity :
    (b : Bool) (s t : Session)
    → s.last_activity ≡ t.last_activity
    → (if b then s else t).last_activity ≡ t.last_activity
either_activity true s t h = h
either_activity false s t h = refl

-- A session that is closed stays as old as it was.
close-should_cleanup :
    (p : Pool) (now i j : ℕ)
    → should_cleanup_session (change p i handle_connection_timeout) now j
      ≡ should_cleanup_session p now j
unfolding should_cleanup_session handle_connection_timeout do_close
close-should_cleanup p now i j =
    ap (λ t. leb p.idle_timeout (seconds_since now t))
      (either_activity (j == i) (do_close (p.sessions j)) (p.sessions j) refl)

closed-SweptIdle :
    (b : ℕ → Bool) (i : ℕ) (rest kept : List ℕ) (cleaned : ℕ) (x : Pool × ℕ)
    → b i ≡ true
    → SweptIdle b rest kept (suc cleaned) x
    → SweptIdle b (i ∷ rest) kept cleaned x
closed-SweptIdle b i rest kept cleaned x t (same, more) = (
  same ∙ ap (λ l. kept ++ l) (sym (keep_if-false (λ j. not (b j)) i rest (ap not t))),
  omega (arith, ap length (keep_if-true b i rest t)),
)

kept-SweptIdle :
    (b : ℕ → Bool) (i : ℕ) (rest kept : List ℕ) (cleaned : ℕ) (x : Pool × ℕ)
    → b i ≡ false
    → SweptIdle b rest (kept ++ i ∷ []) cleaned x
    → SweptIdle b (i ∷ rest) kept cleaned x
kept-SweptIdle b i rest kept cleaned x f (same, more) = (
  same
      ∙ append_assoc kept (i ∷ []) (keep_if (λ j. not (b j)) rest)
      ∙ ap (λ l. kept ++ l) (sym (keep_if-true (λ j. not (b j)) i rest (ap not f))),
  omega (arith, ap length (keep_if-false b i rest f)),
)

choose-SweptIdle :
    (t : Bool) (b : ℕ → Bool) (rest kept : List ℕ) (cleaned : ℕ) (x y : Pool × ℕ)
    → (t ≡ true → SweptIdle b rest kept cleaned x)
    → (t ≡ false → SweptIdle b rest kept cleaned y)
    → SweptIdle b rest kept cleaned (if t then x else y)
choose-SweptIdle true b rest kept cleaned x y f g = f refl
choose-SweptIdle false b rest kept cleaned x y f g = g refl

cleanup_sessions-SweptIdle :
    (rest kept : List ℕ) (p : Pool) (now cleaned : ℕ) (b : ℕ → Bool)
    → ((i : ℕ) → should_cleanup_session p now i ≡ b i)
    → SweptIdle b rest kept cleaned (cleanup_sessions p now rest kept cleaned)
unfolding cleanup_sessions
cleanup_sessions-SweptIdle [] kept p now cleaned b h = (sym (append-nil kept), omega arith)
cleanup_sessions-SweptIdle (i ∷ rest) kept p now cleaned b h =
    let q = change p i handle_connection_timeout in
    choose-SweptIdle (should_cleanup_session p now i) b (i ∷ rest) kept cleaned _ _
      (λ t.
        closed-SweptIdle b i rest kept cleaned (cleanup_sessions q now rest kept (suc cleaned))
          (sym (h i) ∙ t)
          (cleanup_sessions-SweptIdle rest kept q now (suc cleaned) b
            (λ j. close-should_cleanup p now i j ∙ h j)))
      (λ f.
        kept-SweptIdle b i rest kept cleaned (cleanup_sessions p now rest (kept ++ i ∷ []) cleaned)
          (sym (h i) ∙ f) (cleanup_sessions-SweptIdle rest (kept ++ i ∷ []) p now cleaned b h))

-- The sweep of the idle sessions keeps those that have been idle for less than the timeout, in
-- whole seconds, in their order, and returns how many it closed.
pub cleanup_idle_connections_lem :
    (p : Pool) (now : ℕ)
    → let too_long : ℕ → Bool =
        λ i. leb p.idle_timeout (seconds_since now (p.sessions i).last_activity) in
      let x = cleanup_idle_connections p now in
      (x.0.idle_connections ≡ keep_if (λ i. not (too_long i)) p.idle_connections)
      × (x.1 ≡ length (keep_if too_long p.idle_connections))
unfolding cleanup_idle_connections should_cleanup_session
cleanup_idle_connections_lem p now =
    let too_long : ℕ → Bool =
      λ i. leb p.idle_timeout (seconds_since now (p.sessions i).last_activity) in
    let (same, more) =
      cleanup_sessions-SweptIdle p.idle_connections [] p now 0 too_long (λ i. refl) in
    (same, omega (arith, more))
