-- ===== src/Outbox/Register.antt =====
-- commit/outbox_store.py: the `register_…` methods, which write a new event. The event's id
-- (`uuid.uuid4()`) and the present time are arguments, and so is what the ContextFS answers.
use rtc_retrieval_token_cutt.Base.{
  ℕ, Option, none, some, List, [], ◌∷◌, ◌++◌, map, Text, codes, is_empty, rstrip, take,
  if◌then◌else◌, Result, ok,
}
use rtc_retrieval_token_cutt.Json.{Json, float, str, arr, obj, end, field, to_items}
use rtc_retrieval_token_cutt.Outbox.Event.{OutboxEvent, event_file, new_event, short_doc}
use rtc_retrieval_token_cutt.Outbox.Client.{AgfsClient}
use rtc_retrieval_token_cutt.Outbox.Paths.{remove_all, node_uri_to_directory_uri}
use rtc_retrieval_token_cutt.Outbox.Store.{outcome, write_event}

-- A record of the vector index, its fields as whatever values a payload gives them.
pub record IndexRecord : Type 0 where
  pub id : Json
  pub uri : Json
  pub level : Json
  pub text : Json
  pub filters : Json
  pub metadata : Json

pub record RelationEdge : Type 0 where
  pub from_uri : Text
  pub to_uri : Text
  pub relation_type : Text
  pub weight : ℕ

-- The fields of a ContextNode that these methods read.
pub record Node : Type 0 where
  pub uri : Text
  pub owner_space : Text
  pub abstract : Text

-- The two methods of ContextFS that `_collect_sibling_abstracts` calls; `none` is an exception.
pub record ContextFs : Type 0 where
  pub list_children : Text → Option (List Text)
  pub read_node : Text → Option (Option Node)

unfoldable pub record_dict : IndexRecord → Json
record_dict r = obj (
    field (codes "id") r.id (
      field (codes "uri") r.uri (
        field (codes "level") r.level (
          field (codes "text") r.text
            (field (codes "filters") r.filters (field (codes "metadata") r.metadata end))))))

unfoldable pub records_payload : List IndexRecord → Json
unfolding record_dict to_items
records_payload rs = obj (field (codes "records") (arr (to_items (map record_dict rs))) end)

unfoldable pub edge_dict : RelationEdge → Json
edge_dict e = obj (
    field (codes "from_uri") (str e.from_uri) (
      field (codes "to_uri") (str e.to_uri) (
        field (codes "relation_type") (str e.relation_type)
          (field (codes "weight") (float e.weight) end))))

-- The loop of `_collect_sibling_abstracts`
unfoldable pub sibling_abstracts : (Text → Option (Option Node)) → List Text → List Text
sibling_abstracts read_node [] = []
sibling_abstracts read_node (uri ∷ uris) =
    let rest = sibling_abstracts read_node uris in
    elim (read_node uri) [
      | some (some node) ↦ if is_empty node.abstract then rest else take 200 node.abstract ∷ rest
      | _ ↦ rest
    ]

unfoldable pub collect_sibling_abstracts : ContextFs → Text → List Text
unfolding sibling_abstracts node_uri_to_directory_uri
collect_sibling_abstracts fs node_uri =
    elim (fs.list_children (node_uri_to_directory_uri node_uri)) [
      | none ↦ []
      | some siblings ↦ sibling_abstracts fs.read_node (take 20 siblings)
    ]

module _ (c : AgfsClient) (unquote : Text → Text) (mount_prefix : Text) (now : ℕ)
    (event_id : Text) where
  open c use {Files, write, mkdir}

  abbrev registered : OutboxEvent → Text → Files → Result (Unit {0}) × OutboxEvent × Files
  registered event node_uri f =
      let (r, f') = write_event c unquote mount_prefix event node_uri f in (r, event, f')

  -- `index_records` is what `build_index_records(node)` returns.
  unfoldable pub register_write :
      (index_records : List IndexRecord) (node_uri : Text)
      → Files
      → Result (Unit {0}) × OutboxEvent × Files
  unfolding records_payload new_event write_event
  register_write index_records node_uri =
      registered
        (new_event now event_id (codes "UPSERT_CONTEXT") node_uri (records_payload index_records))
        node_uri

  unfoldable pub register_delete : Text → Files → Result (Unit {0}) × OutboxEvent × Files
  unfolding new_event write_event
  register_delete uri =
      registered (new_event now event_id (codes "DELETE_CONTEXT") uri (obj end)) uri

  unfoldable pub register_archive : Text → Files → Result (Unit {0}) × OutboxEvent × Files
  unfolding new_event write_event
  register_archive uri =
      registered (new_event now event_id (codes "ARCHIVE_CONTEXT") uri (obj end)) uri

  -- `edges[0].from_uri if edges else ""`
  abbrev pub base_uri : List RelationEdge → Text
  base_uri [] = []
  base_uri (e ∷ _) = e.from_uri

  -- With no edge, or an empty `from_uri`, nothing is written.
  unfoldable pub register_relation :
      List RelationEdge → Files → Result (Unit {0}) × OutboxEvent × Files
  unfolding edge_dict new_event write_event to_items
  register_relation edges f =
      let event =
        new_event now event_id (codes "UPSERT_RELATION") (base_uri edges)
          (obj (field (codes "edges") (arr (to_items (map edge_dict edges))) end)) in
      if is_empty (base_uri edges) then (ok tt, event, f) else registered event (base_uri edges) f

  abbrev directory_payload : (account_id owner_space dir_uri : Text) → List Text → Json
  directory_payload account_id owner_space dir_uri abstracts = obj (
      field (codes "directory_uri") (str dir_uri) (
        field (codes "child_abstracts") (arr (to_items (map str abstracts))) (
          field (codes "filters")
            (obj (
              field (codes "account_id") (str account_id)
                (field (codes "owner_space") (str owner_space) end)))
            end)))

  -- This method writes its file itself, with no check of the URI and no temporary file.
  unfoldable pub register_directory :
      ContextFs → (account_id : Text) → Node → Files → Result (Unit {0}) × OutboxEvent × Files
  unfolding collect_sibling_abstracts new_event short_doc to_items remove_all
  register_directory fs account_id node f =
      let dir_uri = node_uri_to_directory_uri node.uri in
      let event = new_event now event_id (codes "UPSERT_DIRECTORY") dir_uri (
        directory_payload account_id node.owner_space dir_uri
          (collect_sibling_abstracts fs node.uri)) in
      let dir_agfs_path =
        mount_prefix ++ codes "/accounts/" ++ rstrip b'/' (remove_all (codes "ctx://") dir_uri) in
      let (written, f') =
        write (mkdir f (dir_agfs_path ++ codes "/.outbox")).1
          (dir_agfs_path ++ codes "/.outbox/" ++ event_id ++ codes ".json")
          (event_file (short_doc event)) in
      (outcome written, event, f')
