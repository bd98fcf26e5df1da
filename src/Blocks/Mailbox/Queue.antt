-- ===== src/Blocks/Mailbox/Queue.antt =====
-- mailbox.c: the messages of a mailbox as a list, over one call.
use blocks.Prelude.{
  ◌+◌, ◌-◌, ◌%◌, ◌^◌, ◌≡◌, refl, ◌≢◌, List, [], ◌∷◌, Option, some, arith, ne→==, length,
}
use blocks.Blocks.Store.{
  Ptr, null, Message, Mailbox, MailboxState, Store, load_message, load_mailbox, update,
}
use blocks.Blocks.Mailbox.Chain.{Chain, EndsAt, head_of_nil, Chain-uncons, EndsAt-tail}
use blocks.Blocks.Mailbox.{mailbox_receive, mailbox_peek}

-- The mailbox at `box` is in the state `st` and holds the messages `ps`, oldest first.
pub record Holds (s : Store) (box : Ptr) (st : MailboxState) (ps : List Ptr) : Type 0 where
  pub mailbox : Mailbox
  pub ne_null : box ≢ null
  pub at_box : s.mailboxes box ≡ some mailbox
  pub in_state : mailbox.state ≡ st
  pub chain : Chain s.messages mailbox.head ps
  pub end : EndsAt mailbox.end ps
  pub count : mailbox.count ≡ length ps % 2 ^ 32

pub load_mailbox-some :
    (s : Store) (box : Ptr) (b : Mailbox)
    → box ≢ null
    → s.mailboxes box ≡ some b
    → load_mailbox box s ≡ some (b, s)
unfolding load_mailbox
load_mailbox-some s box b ne e = ground arith

pub load_message-some :
    (s : Store) (p : Ptr) (m : Message)
    → p ≢ null
    → s.messages p ≡ some m
    → load_message p s ≡ some (m, s)
unfolding load_message
load_message-some s p m ne e = ground arith

-- `mailbox_receive` takes the oldest message out and changes nothing but the list and the count of the mailbox.
pub mailbox_receive-frame :
    (s : Store) (box p : Ptr) (st : MailboxState) (ps : List Ptr) (hs : Holds s box st (p ∷ ps))
    → (boxes : Ptr → Option Mailbox) × (mailbox_receive box s
        ≡ some (p, record s { mailboxes = boxes }))
      × (h : Holds (record s { mailboxes = boxes }) box st ps) × (h.mailbox.last_message
          ≡ hs.mailbox.last_message)
unfolding mailbox_receive update
mailbox_receive-frame s box p st ps hs =
    let b = hs.mailbox in
    let (m, head, ne, e, c) = Chain-uncons hs.chain in
    let b' : Mailbox = record b { head = m.next; count = (b.count + 2 ^ 32 - 1) % 2 ^ 32 } in
    (
      update s.mailboxes box (some b'),
      rw (
        load_mailbox-some s box b hs.ne_null hs.at_box,
        head,
        ne→== p null ne,
        load_message-some s p m ne e,
      ),
      record {
        mailbox = b';
        ne_null = hs.ne_null;
        in_state = hs.in_state;
        at_box = ground arith;
        chain = c;
        end = EndsAt-tail b.end p ps hs.end;
        count = omega (arith, hs.count);
      },
      refl,
    )

-- Every message is as it was.
pub mailbox_receive-cons :
    (s : Store) (box p : Ptr) (st : MailboxState) (ps : List Ptr)
    → Holds s box st (p ∷ ps)
    → (s' : Store) × (mailbox_receive box s ≡ some (p, s'))
      × Holds s' box st ps
      × (s'.messages ≡ s.messages)
mailbox_receive-cons s box p st ps hs =
    let (boxes, e, h, _) = mailbox_receive-frame s box p st ps hs in
    (record s { mailboxes = boxes }, e, h, refl)

-- On an empty mailbox it returns NULL and changes nothing.
pub mailbox_receive-nil :
    (s : Store) (box : Ptr) (st : MailboxState)
    → Holds s box st []
    → mailbox_receive box s ≡ some (null, s)
unfolding mailbox_receive
mailbox_receive-nil s box st hs =
    rw (load_mailbox-some s box hs.mailbox hs.ne_null hs.at_box, head_of_nil hs.chain)

abbrev pub first : List Ptr → Ptr
first [] = null
first (p ∷ ps) = p

pub mailbox_peek-first :
    (s : Store) (box : Ptr) (st : MailboxState) (ps : List Ptr)
    → Holds s box st ps
    → mailbox_peek box s ≡ some (first ps, s)
unfolding mailbox_peek
mailbox_peek-first s box st [] hs =
    rw (load_mailbox-some s box hs.mailbox hs.ne_null hs.at_box, head_of_nil hs.chain)
mailbox_peek-first s box st (p ∷ ps) hs =
    rw (load_mailbox-some s box hs.mailbox hs.ne_null hs.at_box, (Chain-uncons hs.chain).1)
