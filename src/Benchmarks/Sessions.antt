-- ===== src/Benchmarks/Sessions.antt =====
-- `generate_chat_requests` of benchmarks/generator/request_generator.py: the turns of recorded sessions.
use lmserve.Prelude.{
  ℕ, ◌+◌, ◌<◌, ◌≡◌, refl, inl, inr, Bool, List, [], ◌∷◌, ◌++◌, leb, if◌then◌else◌, All, length,
  length-append, min, arith, Bool-cases, leb→le, leb→lt,
}
use lmserve.Benchmarks.Requests.{ApiRequest}

-- A session: its prompts, its answers and the tokens of these.
pub record SessionRow (Text : Type 0) : Type 0 where
  pub prompts : List Text
  pub outputs : List Text
  pub output_ids : List (List ℕ)

pub record RequestSequence (Text : Type 0) : Type 0 where
  pub requests : List (ApiRequest Text)
  pub output_texts : List Text

module _ {Text : Type 0} (num_sessions num_samples : ℕ) (ignore_eos disable_cache : Bool) where
  -- `for prompt, output, output_ids in zip(...)`: the shortest list ends the loop.
  unfoldable pub session_turns : List Text → List Text → List (List ℕ) → RequestSequence Text
  session_turns (p ∷ ps) (o ∷ os) (ids ∷ idss) =
      let rest = session_turns ps os idss in
      record {
        requests =
            record {
              prompt = p;
              num_samples = num_samples;
              max_output_len = length ids;
              ignore_eos = ignore_eos;
              disable_cache = disable_cache;
            }
            ∷ rest.requests;
        output_texts = o ∷ rest.output_texts;
      }
  session_turns _ _ _ = record { requests = []; output_texts = [] }

  -- The loop over the dataset, which ends after the append that reaches the number.
  unfoldable pub session_loop :
      List (SessionRow Text) → List (RequestSequence Text) → List (RequestSequence Text)
  unfolding session_turns
  session_loop [] req_seqs = req_seqs
  session_loop (row ∷ rest) req_seqs =
      let req_seqs' = req_seqs ++ session_turns row.prompts row.outputs row.output_ids ∷ [] in
      let go_on = session_loop rest req_seqs' in
      if leb num_sessions (length req_seqs') then req_seqs' else go_on

  unfoldable pub generate_chat_requests : List (SessionRow Text) → List (RequestSequence Text)
  unfolding session_loop
  generate_chat_requests dataset = session_loop dataset []

  -- An answer for each request.
  abbrev pub Answered : RequestSequence Text → Type 0
  Answered q = length q.output_texts ≡ length q.requests

  session_turns-Answered :
      (ps os : List Text) (idss : List (List ℕ)) → Answered (session_turns ps os idss)
  unfolding session_turns
  session_turns-Answered [] os idss = refl
  session_turns-Answered (p ∷ ps) [] idss = refl
  session_turns-Answered (p ∷ ps) (o ∷ os) [] = refl
  session_turns-Answered (p ∷ ps) (o ∷ os) (ids ∷ idss) =
      omega (arith, session_turns-Answered ps os idss)

  Answered-snoc :
      (qs : List (RequestSequence Text)) (q : RequestSequence Text)
      → All Answered qs
      → Answered q
      → All Answered (qs ++ q ∷ [])
  Answered-snoc [] q h a = (a, tt)
  Answered-snoc (x ∷ qs) q h a = (h.0, Answered-snoc qs q h.1 a)

  session_loop-Answered :
      (dataset : List (SessionRow Text)) (req_seqs : List (RequestSequence Text))
      → All Answered req_seqs
      → length req_seqs < num_sessions
      → All Answered (session_loop dataset req_seqs)
        × (length (session_loop dataset req_seqs)
            ≡ min num_sessions (length req_seqs + length dataset))
  unfolding session_loop
  session_loop-Answered [] req_seqs h lt = (h, omega arith)
  session_loop-Answered (row ∷ rest) req_seqs h lt =
      let turns = session_turns row.prompts row.outputs row.output_ids in
      let req_seqs' = req_seqs ++ turns ∷ [] in
      let h' =
        Answered-snoc req_seqs turns h
          (session_turns-Answered row.prompts row.outputs row.output_ids) in
      let len = length-append req_seqs (turns ∷ []) in
      elim (Bool-cases (leb num_sessions (length req_seqs'))) [
        | inl x ↦ (
          rw (session_loop, x) h',
          rw (session_loop, x) (omega (arith, len, leb→le num_sessions (length req_seqs') x)),
        )
        | inr x ↦
            let more =
              session_loop-Answered rest req_seqs' h' (leb→lt num_sessions (length req_seqs') x) in
            (rw (session_loop, x) (more.0), rw (session_loop, x) (omega (arith, len, more.1)))
      ]

  -- For a number of sessions above 0, as many sequences are made as the number and the dataset allow, and
  -- each has one recorded answer for each of its requests, however long the lists of a session are.
  pub generate_chat_requests-Answered :
      (dataset : List (SessionRow Text))
      → 0 < num_sessions
      → All Answered (generate_chat_requests dataset)
        × (length (generate_chat_requests dataset) ≡ min num_sessions (length dataset))
  unfolding generate_chat_requests
  generate_chat_requests-Answered dataset pos =
      let all = session_loop-Answered dataset [] tt pos in (all.0, omega (arith, all.1))
