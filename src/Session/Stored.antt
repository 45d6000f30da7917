-- ===== src/Session/Stored.antt =====
-- session/archive_store.py: an archive that was written, read again.
use rtc_retrieval_token_cutt.Base.{
  ◌≡◌, refl, ap, ◌∙◌, true, Option, some, List, Text, codes, starts_with, text_eq, Result, ok,
  raised, ◌>>=◌,
}
use rtc_retrieval_token_cutt.Json.{str, lookup_field}
use rtc_retrieval_token_cutt.Nodes.Files.{Codec, CodecLaws, NodeClient, NodeLaws}
use rtc_retrieval_token_cutt.Nodes.Meta.{ContextNode, base_meta, meta_of}
use rtc_retrieval_token_cutt.Nodes.Methods.{Caller, ReadNode, write_node}
use rtc_retrieval_token_cutt.Nodes.Tree.{exists}
use rtc_retrieval_token_cutt.Nodes.Written.{lookup_field-meta_of}
use rtc_retrieval_token_cutt.Nodes.Readback.{write_node-read}
use rtc_retrieval_token_cutt.Nodes.Present.{read_node-exists}
use rtc_retrieval_token_cutt.Session.Archive.{
  MessageCodec, MessageLaws, ArchiveEntry, archive_node, messages_of, entry_of, succeeded,
  write_archive, read_present, entry_or_none, read_archive,
}

module _ (k : MessageCodec) (kl : MessageLaws k) (unquote : Text → Text) (mount_prefix : Text)
    (j : Codec) (codec : CodecLaws j) (c : NodeClient j.Bytes) (laws : NodeLaws c)
    (shorten : Text → Text) (ctx : Caller)
    (now written session_id archive_id overview abstract : Text) (messages : List k.Message) where
  abbrev node : ContextNode
  node = archive_node k shorten ctx now session_id archive_id overview abstract messages

  -- What the entry that is read has of the archive that was written.
  pub record Keeps (e : ArchiveEntry k) : Type 0 where
    pub messages_same : e.messages ≡ messages
    pub overview_same : e.overview ≡ shorten overview
    pub abstract_same : e.abstract ≡ abstract

  is_active : lookup_field (codes "status") (meta_of node written) ≡ some (str (codes "ACTIVE"))
  unfolding base_meta text_eq starts_with
  is_active = lookup_field-meta_of node written (codes "status") refl refl

  messages_of-dumps : messages_of k (k.dumps messages) ≡ ok messages
  messages_of-dumps = rw (kl.full messages, kl.loads-dumps messages) refl

  -- An archive whose write is reported as a success is read back with its messages, its abstract and its
  -- overview as it was shortened.
  pub write_archive-read_archive :
      (f : c.Files)
      → (write_archive k unquote mount_prefix j c shorten ctx now written session_id archive_id
          overview abstract messages f).0.success
        ≡ true
      → (e : ArchiveEntry k) × (read_archive k unquote mount_prefix j c ctx session_id archive_id
            (write_archive k unquote mount_prefix j c shorten ctx now written session_id archive_id
              overview abstract messages f).1
          ≡ some e)
        × Keeps e
  unfolding write_archive read_archive
  write_archive-read_archive f h =
      through (write_node unquote mount_prefix j c node ctx written f) refl h
    where
      outcome : Result (Option (ArchiveEntry k)) → Option (ArchiveEntry k)
      outcome r = entry_or_none k unquote mount_prefix j c r

      entry : ReadNode → List k.Message → Result (Option (ArchiveEntry k))
      entry n ms = ok (some (entry_of k session_id archive_id n ms))

      through :
          (r : Result (Unit {0}) × c.Files)
          → write_node unquote mount_prefix j c node ctx written f ≡ r
          → succeeded k r.0 ≡ true
          → (e : ArchiveEntry k) × (entry_or_none k unquote mount_prefix j c (
                exists unquote mount_prefix j c node.uri ctx r.1 >>= λ there.
                read_present k unquote mount_prefix j c there ctx session_id archive_id r.1)
              ≡ some e)
            × Keeps e
      through (raised x, f') e s = absurd (cc)
      through (ok _, f') e s =
          let (r, read, shows) =
            write_node-read unquote mount_prefix j codec c laws node ctx written f f' is_active e in
          let there = read_node-exists unquote mount_prefix j c node.uri ctx f' r read in
          (
            entry_of k session_id archive_id r messages,
            ap
                  (λ t. outcome (
                    t >>= λ b.
                    read_present k unquote mount_prefix j c b ctx session_id archive_id f'))
                  there
                ∙ ap (λ t. outcome (t >>= λ n. messages_of k n.content >>= entry n)) read
                ∙ ap (λ t. outcome (t >>= entry r))
                    (ap (messages_of k) shows.content ∙ messages_of-dumps),
            record {
              messages_same = refl;
              overview_same = shows.overview;
              abstract_same = shows.abstract;
            },
          )
