-- ===== src/Dialogue/Modest.antt =====
-- Conversations in which every line can be said: the lines that are typed and the names are short
-- texts.
use csfassignment.Base.{
  ℕ, ◌≡◌, sym, ap, subst, ◌∙◌, ◌⊎◌, inl, inr, ◌++◌, Option, none, some, Bytes, codes, Bool-cases,
  arith,
}
use csfassignment.Text.{str_eq}
use csfassignment.Text.Find.{IsLower}
use csfassignment.Message.{Message, message, tag_ok, tag_err, tag_join, tag_leave, tag_sendall}
use csfassignment.Heap.{Store}
use csfassignment.Room.{remove_member_at}
use csfassignment.Server.{is_valid_room_name, find_or_create_room}
use csfassignment.Server.Program.{username_at, room_name_at}
use csfassignment.Server.Effects.{broadcast_rooms}
use csfassignment.Server.Service.Views.{add_title, remove_title, remove_name}
use csfassignment.Dialogue.Link.{IsPlain}
use csfassignment.Dialogue.Replies.{Reply, left_room, to_join, to_leave, to_sendall, reply_to}
use csfassignment.Dialogue.Texts.{IsText, IsText-append, IsText-more, message-IsPlain}
use csfassignment.Dialogue.Objects.{
  text_of, username_at-text_of, room_name_at-text_of, found_title, IsPlaced, placed-IsText, HasUser,
  left_room-HasUser, found-HasUser, added-HasUser, told-HasUser,
}

-- The requests that a sender makes.
abbrev pub IsRequest : Message → Type 0
IsRequest m =
    ((m.tag ≡ tag_join) ⊎ (m.tag ≡ tag_leave) ⊎ (m.tag ≡ tag_sendall)) × IsText 150 m.payload

module _ (user : ℕ) (name : Bytes) (short : IsText 60 name) where
  -- An answer that can be said, and what is behind it.
  pub record IsGood (a : Reply) : Type 0 where
    pub plain : IsPlain a.said
    pub held : HasUser user name a.store
    pub placed : IsPlaced a.room a.store

  err_short : IsLower tag_err × IsLower tag_ok
  err_short = ground arith

  refusal-IsPlain : (text : Bytes) → IsText 245 text → IsPlain (message tag_err text)
  refusal-IsPlain text a = message-IsPlain tag_err text err_short.0 (omega arith) a

  approval-IsPlain : (text : Bytes) → IsText 245 text → IsPlain (message tag_ok text)
  approval-IsPlain text a = message-IsPlain tag_ok text err_short.1 (omega arith) a

  joined-IsText :
      (title : Bytes)
      → IsText 150 title
      → IsText 245 (codes "succesfully joined " ++ title ++ codes "!")
  joined-IsText title a =
      let front : IsText 20 (codes "succesfully joined ") = ground arith in
      let mark : IsText 1 (codes "!") = ground arith in
      IsText-more 245 _ (omega arith) (
        IsText-append (codes "succesfully joined " ++ title) (codes "!")
          (IsText-append (codes "succesfully joined ") title front a) mark)

  left-IsText :
      (title : Bytes) → IsText 150 title → IsText 245 (name ++ codes " has left the room " ++ title)
  left-IsText title a =
      let words : IsText 20 (codes " has left the room ") = ground arith in
      IsText-more 245 _ (omega arith) (
        IsText-append (name ++ codes " has left the room ") title
          (IsText-append name (codes " has left the room ") short words) a)

  to_join-IsGood :
      (room : Option ℕ) (title : Bytes) (s : Store)
      → HasUser user name s
      → IsPlaced room s
      → IsText 150 title
      → IsGood (to_join user room title s)
  to_join-IsGood room title s v p a =
      let s1 = left_room user room s in
      let (r, s2) = find_or_create_room title s1 in
      elim (Bool-cases (is_valid_room_name title)) [
        | inl valid ↦ rw valid (record {
          plain = approval-IsPlain _ (joined-IsText title a);
          held =
              added-HasUser user name r s2
                (found-HasUser user name title s1 (left_room-HasUser user name room s v));
          placed = (
            title,
            add_title r user s2 r ∙ found_title title s1 (left_room-HasUser user name room s v).inv,
            a,
          );
        })
        | inr invalid ↦
            rw invalid (record { plain = refusal-IsPlain _ (ground arith); held = v; placed = p })
      ]

  username_after :
      (r : ℕ) (s : Store)
      → HasUser user name s
      → username_at user (remove_member_at r user s) ≡ name
  username_after r s v =
      username_at-text_of user (remove_member_at r user s)
      ∙ ap text_of (remove_name r user s user ∙ v.named)

  room_name_after :
      (r : ℕ) (s : Store) → room_name_at r (remove_member_at r user s) ≡ room_name_at r s
  room_name_after r s =
      room_name_at-text_of r (remove_member_at r user s)
      ∙ ap text_of (remove_title r user s r)
      ∙ sym (room_name_at-text_of r s)

  to_leave-IsGood :
      (room : Option ℕ) (s : Store)
      → HasUser user name s
      → IsPlaced room s
      → IsGood (to_leave user room s)
  to_leave-IsGood none s v p = record {
    plain = refusal-IsPlain _ (ground arith);
    held = v;
    placed = p;
  }
  to_leave-IsGood (some r) s v p = record {
    plain = approval-IsPlain _ (
        rw (username_after r s v, room_name_after r s)
          (left-IsText (room_name_at r s) (placed-IsText r s p)));
    held = left_room-HasUser user name (some r) s v;
    placed = tt;
  }

  to_sendall-IsGood :
      (room : Option ℕ) (text : Bytes) (s : Store)
      → HasUser user name s
      → IsPlaced room s
      → IsGood (to_sendall user room text s)
  to_sendall-IsGood none text s v p = record {
    plain = refusal-IsPlain _ (ground arith);
    held = v;
    placed = p;
  }
  to_sendall-IsGood (some r) text s v p = record {
    plain = approval-IsPlain _ (ground arith);
    held = told-HasUser user name r (username_at user s) text s v;
    placed =
        subst (λ f. IsPlaced (some r) (record s { rooms = f }))
          (sym (broadcast_rooms r (username_at user s) text s).0) p;
  }

  pub reply_to-IsGood :
      (room : Option ℕ) (m : Message) (s : Store)
      → HasUser user name s
      → IsPlaced room s
      → IsRequest m
      → IsGood (reply_to user room m s)
  unfolding str_eq
  reply_to-IsGood room m s v p (inl e, a) = rw e (to_join-IsGood room m.payload s v p a)
  reply_to-IsGood room m s v p (inr (inl e), a) = rw e (to_leave-IsGood room s v p)
  reply_to-IsGood room m s v p (inr (inr e), a) = rw e (to_sendall-IsGood room m.payload s v p)
