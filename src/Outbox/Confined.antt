-- ===== src/Outbox/Confined.antt =====
-- The check of `_write_event` (commit/outbox_store.py) against path traversal, on the paths that
-- fs/agfs_adapter/agfs_context_fs.py makes of URIs.
use rtc_retrieval_token_cutt.Base.{
  ℕ, ◌≡◌, ◌≢◌, refl, sym, ◌∙◌, ap, Bool, true, false, Option, none, some, List, [], ◌∷◌, ◌++◌, Text,
  codes, is_empty, starts_with, contains, split_on, keep_if, All, All-append, arith, ok, ◌==◌,
  Bool-cases, inl, inr, append_assoc, append-nil,
}
use rtc_retrieval_token_cutt.Outbox.Event.{OutboxEvent}
use rtc_retrieval_token_cutt.Outbox.Client.{AgfsClient}
use rtc_retrieval_token_cutt.Outbox.Uri.{
  Parsed, skill, memory, recognise, Components, parts_of, components_or_error, parse_uri-recognise,
}
use rtc_retrieval_token_cutt.Outbox.Paths.{
  PosixPath, root_of, posix_path, join_path, join_parts, show_path, under_accounts, accounts,
  segments, uri_to_path, path_or_error, uri_to_path-recognise, uri_to_agfs_path_lem,
}
use rtc_retrieval_token_cutt.Outbox.Store.{
  is_safe, are_safe, write_event, write_event-safe, node_path,
}

-- One part of a path: no slash in it, and it does not lead up.
abbrev pub StaysDown : Text → Type 0
StaysDown part = (part ≢ codes "..") × (contains part (codes "/") ≡ false)

abbrev Split : Text → Type 0
Split s =
    (h : Text) × (t : List Text) × (split_on b'/' s ≡ h ∷ t)
    × (starts_with s h ≡ true)
    × All StaysDown (h ∷ t)

cons-leads_down :
    (x : ℕ) (s head : Text)
    → starts_with s head ≡ true
    → contains (x ∷ s) (codes "..") ≡ false
    → x ∷ head ≢ codes ".."
unfolding starts_with contains
cons-leads_down x s [] p h e = cc
cons-leads_down x [] (y ∷ head) p h e = cc
cons-leads_down x (z ∷ s) (y ∷ []) p h e = ground arith
cons-leads_down x (z ∷ s) (y ∷ y' ∷ head) p h e = cc

cons-slash :
    (x : ℕ) (head : Text)
    → (x == b'/') ≡ false
    → contains head (codes "/") ≡ false
    → contains (x ∷ head) (codes "/") ≡ false
unfolding contains starts_with
cons-slash x head h k = ground (arith, h, k)

empty-StaysDown : StaysDown []
unfolding contains
empty-StaysDown = ((λ e. cc), refl)

Split-StaysDown : (s : Text) → contains s (codes "..") ≡ false → Split s
unfolding split_on contains starts_with
Split-StaysDown [] h = ([], [], refl, refl, (empty-StaysDown, tt))
Split-StaysDown (x ∷ s) h =
    let (head, tail, e, prefix, all) = Split-StaysDown s (ground arith) in
    elim (Bool-cases (x == b'/')) [
      | inl slash ↦ ([], head ∷ tail, rw (slash, e), refl, (empty-StaysDown, all))
      | inr other ↦ (
        x ∷ head,
        tail,
        rw (other, e),
        ground arith,
        ((cons-leads_down x s head prefix h, cons-slash x head other all.0.1), all.1),
      )
    ]

module _ (keep : Text → Bool) where
  All-keep_if : (l : List Text) → All StaysDown l → All StaysDown (keep_if keep l)
  All-keep_if [] h = tt
  All-keep_if (s ∷ l) h = elim (Bool-cases (keep s)) [
    | inl e ↦ rw e (h.0, All-keep_if l h.1)
    | inr e ↦ rw e (All-keep_if l h.1)
  ]

root_of-relative : (s : Text) → starts_with s (codes "/") ≡ false → root_of s ≡ []
unfolding root_of starts_with
root_of-relative [] h = refl
root_of-relative (x ∷ s) h = ground arith

abbrev extend : PosixPath → List Text → PosixPath
extend p q = record { root = p.root; parts = p.parts ++ q }

-- What a safe segment adds to a path.
join-safe :
    (p : PosixPath) (s : Text)
    → is_safe s ≡ true
    → (q : List Text) × (join_path p s ≡ extend p q) × All StaysDown q
unfolding join_path is_safe
join-safe p s h =
    let (head, tail, e, _, all) = Split-StaysDown s (ground arith) in
    (
      (posix_path s).parts,
      rw (root_of-relative s (ground arith)),
      All-keep_if _ (split_on b'/' s) (rw e all),
    )

-- Segments that are all safe go below the path that they are joined to.
under-safe :
    (ss : List Text) (p : PosixPath)
    → All (λ s. is_safe s ≡ true) ss
    → (q : List Text) × (under_accounts ss p ≡ extend p q) × All StaysDown q
unfolding under_accounts
under-safe [] p h = ([], rw append-nil, tt)
under-safe (s ∷ ss) p h =
    let (q, e, down) = join-safe p s h.0 in
    let (r, e', down') = under-safe ss (join_path p s) h.1 in
    (q ++ r, e' ∙ (ap (λ x. extend x r) e ∙ rw append_assoc), All-append StaysDown q r down down')

segments-safe :
    (unquote : Text → Text) (p : Parsed)
    → are_safe (parts_of unquote p) ≡ true
    → All (λ s. is_safe s ≡ true) (segments unquote p)
unfolding are_safe parts_of contains starts_with
segments-safe unquote (skill a o n) h = ground arith
segments-safe unquote p h = ground arith

-- The path of a directory below `/accounts/`, from its parts.
abbrev pub below_accounts : List Text → Text
below_accounts [] = codes "/accounts/"
below_accounts (s ∷ ss) = codes "/accounts/" ++ join_parts (s ∷ ss) ++ codes "/"

show-extend : (q : List Text) → show_path (extend accounts q) ++ codes "/" ≡ below_accounts q
unfolding show_path
show-extend [] = refl
show-extend (s ∷ ss) = refl

pattern_confined :
    (unquote : Text → Text) (r : Option Parsed) (parts : Components)
    → components_or_error unquote r ≡ ok parts
    → are_safe parts ≡ true
    → (q : List Text) × (path_or_error unquote r ≡ ok (below_accounts q)) × All StaysDown q
pattern_confined unquote none parts h safe = absurd (cc)
pattern_confined unquote (some p) parts h safe =
    let (q, under, down) =
      under-safe (segments unquote p) accounts (segments-safe unquote p (cc)) in
    (q, ap ok (rw (under, show-extend q)), down)

module _ (c : AgfsClient) (unquote : Text → Text) (mount_prefix : Text) where
  -- Where `_write_event` returns, the node's path lies below `/accounts/` behind the mount prefix: what
  -- follows is parts with slashes between them, none of which is `..` or has a slash of its own,
  -- whatever the URI is and whatever the percent-decoding makes of it.
  pub write_event_confined :
      (event : OutboxEvent) (node_uri : Text) (f f' : c.Files)
      → write_event c unquote mount_prefix event node_uri f ≡ (ok tt, f')
      → (q : List Text) × (node_path c unquote mount_prefix node_uri
          ≡ mount_prefix ++ below_accounts q)
        × All StaysDown q
  write_event_confined event node_uri f f' h =
      let (parts, parsed, safe) = write_event-safe c unquote mount_prefix event node_uri f h in
      let (q, e, down) =
        pattern_confined unquote (recognise node_uri) parts
          (sym (parse_uri-recognise unquote node_uri) ∙ parsed) safe in
      (
        q,
        rw (
          uri_to_agfs_path_lem unquote mount_prefix node_uri,
          uri_to_path-recognise unquote node_uri,
          e,
        ),
        down,
      )

-- `uri_to_path` itself has no such check: where a slug decodes to a text that begins with a slash,
-- the path is that text alone, and the account, the owner and the category of the URI play no part.
pub absolute_slug :
    (unquote : Text → Text) (uri a t o c s : Text)
    → recognise uri ≡ some (memory a t o c s)
    → is_empty (root_of (unquote s)) ≡ false
    → uri_to_path unquote uri ≡ ok (show_path (posix_path (unquote s)) ++ codes "/")
unfolding under_accounts
absolute_slug unquote uri a t o c s e h = rw (uri_to_path-recognise unquote uri, e) (rw h)
