-- ===== src/Session/Samples.antt =====
-- A session with two open loops, and an archive in an association list of files.
use rtc_retrieval_token_cutt.Base.{
  ℕ, ◌≡◌, refl, true, not, none, some, List, [], ◌∷◌, Text, codes, text_eq, contains, keep_if,
  split_on, starts_with, if◌then◌else◌, Result, ok, raised, value_error,
}
use rtc_retrieval_token_cutt.Nodes.Memory.{codec, codec-laws, files, files-laws}
use rtc_retrieval_token_cutt.Nodes.Methods.{Caller}
use rtc_retrieval_token_cutt.Session.State.{
  Commitment, SessionState, new_commitment, new_state, add_commitment, resolve_commitment,
  get_open_loops,
}
use rtc_retrieval_token_cutt.Session.Loops.{resolve_commitment-get_open_loops}
use rtc_retrieval_token_cutt.Session.Archive.{
  MessageCodec, MessageLaws, ArchiveEntry, write_archive, read_archive,
}
use rtc_retrieval_token_cutt.Session.Stored.{Keeps, write_archive-read_archive}

abbrev promise : Text → Commitment
promise t = new_commitment (codes "now") t (codes "open") [] none

abbrev promised : SessionState
promised =
    add_commitment (codes "s") (promise (codes "buy tea"))
      (add_commitment (codes "s") (promise (codes "call Ann")) new_state)

resolve_commitment-get_open_loops_example :
    get_open_loops
      (codes "s")
      (resolve_commitment (codes "later") (codes "s") (codes "tea") promised)
    ≡ (if text_eq (codes "s") (codes "s")
        then keep_if
            (λ c. not (contains c.content (codes "tea")))
            (get_open_loops (codes "s") promised)
        else get_open_loops (codes "s") promised)
resolve_commitment-get_open_loops_example =
    resolve_commitment-get_open_loops (codes "later") (codes "s") (codes "tea") (codes "s") promised

-- The other loop is the only one that stays.
loops_left :
    get_open_loops
      (codes "s")
      (resolve_commitment (codes "later") (codes "s") (codes "tea") promised)
    ≡ promise (codes "call Ann") ∷ []
unfolding get_open_loops resolve_commitment add_commitment new_commitment
loops_left = refl

abbrev loads_numbers : Text → Result (List ℕ)
loads_numbers [] = raised value_error
loads_numbers (x ∷ ns) = ok ns

abbrev numbers : MessageCodec
numbers = record { Message = ℕ; dumps = λ ns. b'[' ∷ ns; loads = loads_numbers }

numbers-laws : MessageLaws numbers
numbers-laws = record { full = λ ns. refl; loads-dumps = λ ns. refl }

abbrev plain : Text → Text
plain s = s

abbrev caller : Caller
caller = record { account_id = codes "acme"; user_id = codes "u1"; agent_id = codes "a1" }

archive_success :
    (write_archive numbers plain
      (codes "/local")
      codec
      files
      plain
      caller
      (codes "now")
      (codes "later")
      (codes "s")
      (codes "a")
      (codes "tea")
      (codes "t")
      (7 ∷ 8 ∷ [])
      []).0.success
    ≡ true
unfolding write_archive split_on starts_with
archive_success = refl

write_archive-read_archive_example :
    (e : ArchiveEntry numbers) × (read_archive numbers plain
        (codes "/local")
        codec
        files
        caller
        (codes "s")
        (codes "a")
        (write_archive numbers plain
          (codes "/local")
          codec
          files
          plain
          caller
          (codes "now")
          (codes "later")
          (codes "s")
          (codes "a")
          (codes "tea")
          (codes "t")
          (7 ∷ 8 ∷ [])
          []).1
      ≡ some e)
    × Keeps numbers numbers-laws plain
        (codes "/local")
        codec
        codec-laws
        files
        files-laws
        plain
        caller
        (codes "now")
        (codes "later")
        (codes "s")
        (codes "a")
        (codes "tea")
        (codes "t")
        (7 ∷ 8 ∷ [])
        e
write_archive-read_archive_example =
    write_archive-read_archive numbers numbers-laws plain (codes "/local") codec codec-laws files
      files-laws plain caller (codes "now") (codes "later") (codes "s") (codes "a") (codes "tea")
      (codes "t") (7 ∷ 8 ∷ []) [] archive_success
