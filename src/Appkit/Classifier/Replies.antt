-- ===== src/Appkit/Classifier/Replies.antt =====
-- appkit/classifier.go: the final reply of a query.
use soothe_client_go.Prelude.{
  String, ◌≡◌, refl, true, false, not, ◌&&◌, Option, none, some, ◌==◌, ◌⊎◌, inl, inr, arith,
  trim_space, if_cases,
}
use soothe_client_go.Appkit.Classifier.{
  ChatEventTerminal, continues, deliverable_complete, failed_complete, ChatEventResult,
  ClassifierConfig, is_substantive_assistant_reply, is_deliverable_completion_event,
  resolve_deliverable_final_content, final_reply, reply_of,
}

module _ (cfg : ClassifierConfig) (r : ChatEventResult) (accumulated : String) where
  -- A reply is not empty, and the outcome is deliverable with an event that is recognised; the reply
  -- is the outcome's own text without the white space around it, or the accumulated one where the
  -- own text is blank and the accumulated one is long enough.
  abbrev pub IsReply : Option String → Type 0
  IsReply none = Unit
  IsReply (some final) =
      ((final == "") ≡ false)
      × (r.terminal ≡ deliverable_complete)
      × (is_deliverable_completion_event cfg r.completion_event ≡ true)
      × ((final ≡ trim_space r.content)
          ⊎ (((trim_space r.content == "") ≡ true)
              × (final ≡ trim_space accumulated)
              × (is_substantive_assistant_reply cfg (trim_space accumulated) ≡ true)))

  final_reply-IsReply :
      r.terminal ≡ deliverable_complete
      → IsReply (final_reply cfg r.completion_event r.content accumulated)
  unfolding final_reply
  final_reply-IsReply e =
      let own = trim_space r.content in
      let final = trim_space accumulated in
      let known = is_deliverable_completion_event cfg r.completion_event in
      if_cases IsReply (not known) _ _ (λ _. tt)
        (λ k.
          if_cases IsReply (not (own == "")) _ _ (λ full. (ground arith, e, ground arith, inl refl))
            (λ blank.
              if_cases IsReply (not (final == "") && is_substantive_assistant_reply cfg final) _ _
                (λ long. (ground arith, e, ground arith, inr (ground arith, refl, ground arith)))
                (λ _. tt)))

  reply_of-IsReply :
      (t : ChatEventTerminal) → r.terminal ≡ t → IsReply (reply_of cfg t r accumulated)
  unfolding reply_of
  reply_of-IsReply deliverable_complete e = final_reply-IsReply e
  reply_of-IsReply continues e = tt
  reply_of-IsReply failed_complete e = tt

  -- A final reply is not empty, it comes from a deliverable outcome whose completion event is
  -- recognised, and it is the outcome's own text without the white space around it, or the accumulated
  -- text where the own one is blank and the accumulated one is long enough.
  pub resolve-IsReply : IsReply (resolve_deliverable_final_content cfg r accumulated)
  unfolding resolve_deliverable_final_content
  resolve-IsReply = reply_of-IsReply r.terminal refl
