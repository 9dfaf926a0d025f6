-- ===== src/Message/Attachments.antt =====
-- The attachments of a message as a map from keys to values.
use mesher.Prelude.{◌≡◌, ◌≢◌, sym, [], false, arith, Option-cases, inl, inr}
use mesher.Prelude.Text.{Text, text_eq, text_eq_ne, lookup-erase, lookup-nil}
use mesher.Message.{Invocation, get_attachment, set_attachment}

-- Setting an attachment to the empty string takes no effect on any key but the empty one: the old
-- value of the key stays.
pub set_attachment_empty :
    (p : Invocation) (key other default : Text)
    → other ≢ []
    → get_attachment (set_attachment p key []) other default ≡ get_attachment p other default
unfolding get_attachment set_attachment
set_attachment_empty p key other default h =
    let miss : text_eq [] other ≡ false = text_eq_ne [] other (λ e. h (sym e)) in
    elim (Option-cases p.attachments) [
      | inl e ↦
          rw e
            (ground (arith, miss, lookup-erase {V = Text} [] other [], lookup-nil {V = Text} other))
      | inr (m, e) ↦ rw e (ground (arith, miss, lookup-erase [] other m))
    ]
