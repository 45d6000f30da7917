-- ===== src/Outbox/Client.antt =====
-- `pyagfs.AGFSClient`, which the store is given and the repository does not contain: its methods as
-- parameters, and what its documentation says of them.
use rtc_retrieval_token_cutt.Base.{◌≡◌, ◌≢◌, Bool, true, Option, none, some, List, Text}
use rtc_retrieval_token_cutt.Outbox.Event.{Content}

pub record Entry : Type 0 where
  pub name : Text
  pub is_dir : Bool

-- A method that fails raises: `none`, or `false` beside the state that it leaves.
pub record AgfsClient : Type 1 where
  pub Files : Type 0
  pub read : Files → Text → Option Content
  pub ls : Files → Text → Option (List Entry)
  pub write : Files → Text → Content → Bool × Files
  pub mkdir : Files → Text → Bool × Files
  pub rm : Files → Text → Bool × Files
  pub rename : Files → Text → Text → Bool × Files

-- A call that succeeds does what its name says, and no call touches the content of another file.
pub record AgfsLaws (c : AgfsClient) : Type 0 where
  pub read-write :
      (f : c.Files) (p : Text) (x : Content)
      → (c.write f p x).0 ≡ true
      → c.read (c.write f p x).1 p ≡ some x
  pub read-write_ne :
      (f : c.Files) (p q : Text) (x : Content) → p ≢ q → c.read (c.write f p x).1 q ≡ c.read f q
  pub read-mkdir : (f : c.Files) (p q : Text) → c.read (c.mkdir f p).1 q ≡ c.read f q
  pub read-rm : (f : c.Files) (p : Text) → (c.rm f p).0 ≡ true → c.read (c.rm f p).1 p ≡ none
  pub read-rm_ne : (f : c.Files) (p q : Text) → p ≢ q → c.read (c.rm f p).1 q ≡ c.read f q
  pub read-rename :
      (f : c.Files) (p q : Text)
      → (c.rename f p q).0 ≡ true
      → c.read (c.rename f p q).1 q ≡ c.read f p
  pub read-rename_ne :
      (f : c.Files) (p q r : Text) → p ≢ r → q ≢ r → c.read (c.rename f p q).1 r ≡ c.read f r
