-- ===== src/Nodes/Files.antt =====
-- What AGFSContextFS (fs/agfs_adapter/agfs_context_fs.py) calls of `pyagfs.AGFSClient`, and the files
-- of a node.
use rtc_retrieval_token_cutt.Base.{
  ℕ, ◌≡◌, ◌≢◌, Bool, true, false, List, Text, codes, ◌++◌, Result, ok,
}
use rtc_retrieval_token_cutt.Json.{Fields}

-- RelationEdge of code-version/core/models.py; the weight is a float.
pub record RelationEdge : Type 0 where
  pub from_uri : Text
  pub to_uri : Text
  pub relation_type : Text
  pub weight : ℕ
  pub reason : Text

-- The bytes of a file, `encode` and `decode` of UTF-8, and `json.dumps` and `json.loads` for the two
-- files that hold JSON, with what becomes of the loaded value: ValueError stands for JSONDecodeError,
-- another exception for a value of another shape.
pub record Codec : Type 1 where
  pub Bytes : Type 0
  pub encode : Text → Bytes
  pub decode : Bytes → Result Text
  pub is_blank : Bytes → Bool
  pub dump_meta : Fields → Bytes
  pub load_meta : Bytes → Result Fields
  pub dump_relations : List RelationEdge → Bytes
  pub load_relations : Bytes → Result (List RelationEdge)

pub record CodecLaws (j : Codec) : Type 0 where
  pub decode-encode : (t : Text) → j.decode (j.encode t) ≡ ok t
  pub load-dump_meta : (fs : Fields) → j.load_meta (j.dump_meta fs) ≡ ok fs
  pub is_blank-dump_relations : (rs : List RelationEdge) → j.is_blank (j.dump_relations rs) ≡ false
  pub load-dump_relations :
      (rs : List RelationEdge) → j.load_relations (j.dump_relations rs) ≡ ok rs

-- A read finds a file, finds none, or fails otherwise; so for a directory that is made.
pub data Read (B : Type 0) : Type 0 where
  found : B → Read B
  missing : Read B
  unread : Read B

pub data Made : Type 0 where
  made exists_already not_made : Made

pub record NodeClient (B : Type 0) : Type 1 where
  pub Files : Type 0
  pub read : Files → Text → Read B
  pub write : Files → Text → B → Bool × Files
  pub mkdir : Files → Text → Made × Files

-- A write that succeeds is read, and neither a write nor a new directory changes another file.
pub record NodeLaws {B : Type 0} (c : NodeClient B) : Type 0 where
  pub read-write :
      (f : c.Files) (p : Text) (x : B)
      → (c.write f p x).0 ≡ true
      → c.read (c.write f p x).1 p ≡ found x
  pub read-write_ne :
      (f : c.Files) (p q : Text) (x : B) → p ≢ q → c.read (c.write f p x).1 q ≡ c.read f q
  pub read-mkdir : (f : c.Files) (p q : Text) → c.read (c.mkdir f p).1 q ≡ c.read f q

abbrev pub content_path : Text → Text
content_path node_path = node_path ++ codes "content.md"

abbrev pub relations_path : Text → Text
relations_path node_path = node_path ++ codes ".relations.json"

abbrev pub abstract_path : Text → Text
abstract_path node_path = node_path ++ codes ".abstract.md"

abbrev pub overview_path : Text → Text
overview_path node_path = node_path ++ codes ".overview.md"

abbrev pub meta_path : Text → Text
meta_path node_path = node_path ++ codes ".meta.json"
