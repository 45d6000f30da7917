-- ===== src/Session/Archive.antt =====
-- session/archive_store.py: SessionArchiveStore over the nodes of AGFSContextFS. The filter of an
-- overview, which is skipped where it fails, is a function from texts to texts.
use rtc_retrieval_token_cutt.Base.{
  ◌≡◌, Bool, true, false, Option, none, some, List, [], ◌∷◌, ◌++◌, Text, codes, is_empty, rstrip,
  split_on, ends_with, length, if◌then◌else◌, Result, ok, raised, value_error, ◌>>=◌,
}
use rtc_retrieval_token_cutt.Json.{Json, num, str, Fields, end, field, lookup_field}
use rtc_retrieval_token_cutt.Outbox.Event.{get_or}
use rtc_retrieval_token_cutt.Outbox.Paths.{show_path, accounts, under_accounts}
use rtc_retrieval_token_cutt.Nodes.Files.{Codec, NodeClient}
use rtc_retrieval_token_cutt.Nodes.Meta.{ContextNode}
use rtc_retrieval_token_cutt.Nodes.Methods.{Caller, ReadNode, write_node, read_node}
use rtc_retrieval_token_cutt.Nodes.Tree.{TreeClient, exists, list_children}
use rtc_retrieval_token_cutt.Commit.Plan.{metadata_of}

-- `json.dumps` and `json.loads` of the messages; ValueError stands for JSONDecodeError.
pub record MessageCodec : Type 1 where
  pub Message : Type 0
  pub dumps : List Message → Text
  pub loads : Text → Result (List Message)

pub record MessageLaws (k : MessageCodec) : Type 0 where
  pub full : (ms : List k.Message) → is_empty (k.dumps ms) ≡ false
  pub loads-dumps : (ms : List k.Message) → k.loads (k.dumps ms) ≡ ok ms

-- `session_uri_to_path`
unfoldable pub session_uri_to_path : (account_id session_id archive_id : Text) → Text
unfolding under_accounts show_path ends_with
session_uri_to_path account_id session_id archive_id =
    let path = show_path (
      under_accounts
        (account_id ∷ codes "sessions" ∷ session_id ∷ codes "history" ∷ archive_id ∷ [])
        accounts) in
    if ends_with path (codes "/") then path else path ++ codes "/"

abbrev pub history_uri : (ctx : Caller) (session_id : Text) → Text
history_uri ctx session_id =
    codes "ctx://" ++ ctx.account_id ++ codes "/sessions/" ++ session_id ++ codes "/history/"

abbrev pub archive_uri : (ctx : Caller) (session_id archive_id : Text) → Text
archive_uri ctx session_id archive_id = history_uri ctx session_id ++ archive_id

-- What ArchiveWriteResult says of the write; its other fields are those of the call.
pub record ArchiveWriteResult : Type 0 where
  pub uri : Text
  pub success : Bool

module _ (k : MessageCodec) where
  pub record ArchiveEntry : Type 0 where
    pub archive_id : Text
    pub session_id : Text
    pub overview : Text
    pub abstract : Text
    pub messages : List k.Message
    pub created_at : Json
    pub metadata : Fields

  -- The node of an archive.
  abbrev pub archive_node :
      (shorten : Text → Text) (ctx : Caller) (now session_id archive_id overview abstract : Text)
      → List k.Message
      → ContextNode
  archive_node shorten ctx now session_id archive_id overview abstract messages = record {
    uri = archive_uri ctx session_id archive_id;
    context_type = codes "RESOURCE";
    category = codes "history";
    level = 0;
    owner_space = codes "session:" ++ session_id;
    abstract = abstract;
    overview = shorten overview;
    content = k.dumps messages;
    metadata = field (codes "archive_id") (str archive_id) (
        field (codes "session_id") (str session_id) (
          field (codes "created_at") (str now)
            (field (codes "message_count") (num (length messages)) end)));
    relations = [];
    expected_version = none;
  }

  abbrev pub or_no_messages : Result (List k.Message) → Result (List k.Message)
  or_no_messages (raised value_error) = ok []
  or_no_messages r = r

  abbrev pub messages_of : Text → Result (List k.Message)
  messages_of content = if is_empty content then ok [] else or_no_messages (k.loads content)

  abbrev pub entry_of : (session_id archive_id : Text) → ReadNode → List k.Message → ArchiveEntry
  entry_of session_id archive_id node messages = record {
    archive_id = archive_id;
    session_id = session_id;
    overview = node.overview;
    abstract = node.abstract;
    messages = messages;
    created_at = get_or (lookup_field (codes "created_at") (metadata_of node)) (str []);
    metadata = metadata_of node;
  }

  -- `except Exception`
  abbrev pub or_none {ℓ} : {A : Type ℓ} → Result A → Option A
  or_none (raised _) = none
  or_none (ok a) = some a

  abbrev pub succeeded : Result (Unit {0}) → Bool
  succeeded (raised _) = false
  succeeded (ok _) = true

  abbrev last_of : List Text → Text
  last_of [] = []
  last_of (p ∷ []) = p
  last_of (p ∷ q ∷ ps) = last_of (q ∷ ps)

  module _ (unquote : Text → Text) (mount_prefix : Text) (j : Codec) (c : NodeClient j.Bytes) where
    -- `now` is the time of the archive, `written` that of the write.
    unfoldable pub write_archive :
        (shorten : Text → Text) (ctx : Caller)
        (now written session_id archive_id overview abstract : Text)
        → List k.Message
        → c.Files
        → ArchiveWriteResult × c.Files
    unfolding write_node
    write_archive shorten ctx now written session_id archive_id overview abstract messages f =
        let node = archive_node shorten ctx now session_id archive_id overview abstract messages in
        let (r, f') = write_node unquote mount_prefix j c node ctx written f in
        (record { uri = archive_uri ctx session_id archive_id; success = succeeded r }, f')

    abbrev pub read_present :
        Bool
        → (ctx : Caller) (session_id archive_id : Text) → c.Files
        → Result (Option ArchiveEntry)
    read_present false ctx session_id archive_id f = ok none
    read_present true ctx session_id archive_id f = do
      node ← read_node unquote mount_prefix j c (archive_uri ctx session_id archive_id) ctx f
      messages ← messages_of node.content
      ok (some (entry_of session_id archive_id node messages))

    abbrev pub entry_or_none : Result (Option ArchiveEntry) → Option ArchiveEntry
    entry_or_none (raised _) = none
    entry_or_none (ok o) = o

    unfoldable pub read_archive :
        (ctx : Caller) (session_id archive_id : Text) → c.Files → Option ArchiveEntry
    unfolding exists read_node
    read_archive ctx session_id archive_id f = entry_or_none (
        exists unquote mount_prefix j c (archive_uri ctx session_id archive_id) ctx f >>= λ there.
        read_present there ctx session_id archive_id f)

    unfoldable pub read_archive_abstract :
        (ctx : Caller) (session_id archive_id : Text) → c.Files → Option Text
    unfolding read_archive
    read_archive_abstract ctx session_id archive_id f =
        elim (read_archive ctx session_id archive_id f) [
          | none ↦ none
          | some entry ↦ some entry.abstract
        ]

    -- The loop of `list_archives`: an archive that cannot be read is passed over, and no messages are
    -- loaded.
    abbrev add_entry :
        (session_id uri : Text) → Result ReadNode → List ArchiveEntry → List ArchiveEntry
    add_entry session_id uri (raised _) rest = rest
    add_entry session_id uri (ok node) rest =
        entry_of session_id (last_of (split_on b'/' (rstrip b'/' uri))) node [] ∷ rest

    unfoldable pub read_entries :
        (ctx : Caller) (session_id : Text) → c.Files → List Text → List ArchiveEntry
    unfolding read_node split_on rstrip
    read_entries ctx session_id f [] = []
    read_entries ctx session_id f (uri ∷ uris) =
        let rest = read_entries ctx session_id f uris in
        add_entry session_id uri (read_node unquote mount_prefix j c uri ctx f) rest

    unfoldable pub list_archives :
        TreeClient c → (ctx : Caller) (session_id : Text) → c.Files → List ArchiveEntry
    unfolding list_children read_entries
    list_archives t ctx session_id f =
        elim (list_children unquote mount_prefix j c t (history_uri ctx session_id) ctx f) [
          | raised _ ↦ []
          | ok uris ↦ read_entries ctx session_id f uris
        ]
