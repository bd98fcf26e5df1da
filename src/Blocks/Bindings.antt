-- ===== src/Blocks/Bindings.antt =====
-- src/blocks/blocks.c: what the Lua methods of mailboxes and messages call. What they push to the Lua stack
-- is their result; the content that `lua_message_pop` makes of the arguments is a parameter.
pub mod Send
pub mod Service
pub mod Ending
pub mod Awaiting
pub mod Sending
pub mod Conversation
mod Tests
use blocks.Prelude.{Bool, true, false, Option, none, some, ◌==◌, if◌then◌else◌}
use blocks.Blocks.Store.{Ptr, null, Store, Cmd, pure, ◌>>=◌, ◌>>◌}
use blocks.Blocks.Mailbox.{
  lua_message_content_destroy, mailbox_isactive, mailbox_get_last_message, mailbox_destroy,
  mailbox_message_destroy, mailbox_message_get_content, mailbox_wait_for_reply,
}
use blocks.Blocks.Process.{mailbox_send}

-- A reference to the message, or `false`, which is `none`.
unfoldable pub l_message_send : Ptr → Ptr → Ptr → Ptr → Cmd (Option Ptr)
l_message_send sender recipient content fresh = do
  msg ← mailbox_send sender recipient content fresh
  if msg == null then (do lua_message_content_destroy content; pure none) else pure (some msg)

-- `true`, or `false` and the values of a content.
unfoldable pub l_mailbox_state : Ptr → Cmd (Option Ptr)
l_mailbox_state mailbox = do
  active ← mailbox_isactive mailbox
  if active then pure none else (do content ← mailbox_get_last_message mailbox; pure (some content))

-- The values of the reply's content; `none` as long as the call waits.
unfoldable pub l_mailbox_message_get : Ptr → Cmd (Option Ptr)
l_mailbox_message_get message = do
  ready ← mailbox_wait_for_reply message
  if ready
      then (do content ← mailbox_message_get_content message; pure (some content))
      else pure none

-- The two `__gc` methods.
unfoldable pub l_mailbox_ref_destroy : Ptr → Cmd (Unit {0})
l_mailbox_ref_destroy mailbox = mailbox_destroy mailbox

unfoldable pub l_mailbox_message_destroy : Ptr → Cmd (Unit {0})
l_mailbox_message_destroy message = mailbox_message_destroy message
