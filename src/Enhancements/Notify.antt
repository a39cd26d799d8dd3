-- ===== src/Enhancements/Notify.antt =====
-- api/internal/enhancements/eh3_notifications.go. The values of a template are a list in the order in which
-- Go happens to visit the map; the HTTP call of the WhatsApp sender is an argument.
use agentic_mudahurus.Shared.{
  ℕ, zero, suc, ◌-◌, Bool, Option, none, some, List, [], ◌∷◌, ◌++◌, if◌then◌else◌, length, Text,
  codes, text_eq, has_prefix, is_empty,
}
use agentic_mudahurus.World.{failure, Action, pure, raise}
use agentic_mudahurus.Auth.Service.{send}

pub record Notification : Type 0 where
  pub channel : Text
  pub recipient : Text
  pub template : Text
  pub vars : List (Text × Text)

-- `Templates`; none for a key that is not there
unfoldable pub template_body : Text → Option Text
template_body name =
    if text_eq name (codes "order_confirmed")
    then some (codes "Pesanan anda {order_id} telah diterima. Jumlah RM{total}.")
    else if text_eq name (codes "payment_reminder")
    then some (codes "Peringatan: sila buat pembayaran untuk pesanan {order_id} sebelum {expiry}.")
    else if text_eq name (codes "shipped")
    then some (codes "Pesanan {order_id} telah dihantar. No. penjejakan: {tracking_no}.")
    else none

-- strings.ReplaceAll for a pattern that is not empty; `skip` counts the characters of a match
replace_from : Text → Text → ℕ → Text → Text
replace_from old new skip [] = []
replace_from old new (suc skip) (c ∷ s) = replace_from old new skip s
replace_from old new zero (c ∷ s) =
    let matched = replace_from old new (length old - 1) s in
    let passed = replace_from old new zero s in
    if has_prefix (c ∷ s) old then new ++ matched else c ∷ passed

unfoldable pub replace_all : Text → Text → Text → Text
unfolding replace_from has_prefix
replace_all s old new = replace_from old new zero s

unfoldable pub fill_vars : Text → List (Text × Text) → Text
unfolding replace_all
fill_vars body [] = body
fill_vars body ((k, v) ∷ vars) = fill_vars (replace_all body (codes "{" ++ k ++ codes "}") v) vars

-- `body, ok := Templates[template]; if !ok { body = template }`
abbrev body_of : Text → Option Text → Text
body_of template none = template
body_of template (some body) = body

-- `Render`
unfoldable pub render : Text → List (Text × Text) → Text
unfolding template_body fill_vars
render template vars = fill_vars (body_of template (template_body template)) vars

-- `EmailSender.Notify`
unfoldable pub notify_email : Notification → Action (Unit {0})
unfolding render send
notify_email n = send (record {
  to = n.recipient;
  subject = codes "MUDAHURUS: " ++ n.template;
  body = render n.template n.vars;
})

-- The answer to a POST: whether the request could be built, sent and its body closed.
module _ (webhook_url : Text) (post : (to body : Text) → Bool) where
  -- `WhatsAppSender.Notify`
  unfoldable pub notify_whatsapp : Notification → Action (Unit {0})
  unfolding render
  notify_whatsapp n =
      if is_empty webhook_url
      then pure tt
      else if post n.recipient (render n.template n.vars)
      then pure tt
      else raise failure

  -- `MultiChannelNotifier.Notify`, with the two senders of NewModule; any other channel is dropped
  unfoldable pub notify : Notification → Action (Unit {0})
  unfolding notify_email notify_whatsapp
  notify n =
      if text_eq n.channel (codes "email")
      then notify_email n
      else if text_eq n.channel (codes "whatsapp")
      then notify_whatsapp n
      else pure tt

  -- `sendNotification`
  unfoldable pub send_notification : Notification → Action (Unit {0})
  unfolding notify
  send_notification n = notify n
