-- ===== src/Tests/Parts.antt =====
-- Examples for texts, messages, queues and rooms.
use csfassignment.Base.{inl, inr, ◌≡◌, ◌↔◌, refl, [], ◌∷◌, ◌++◌, codes, length, arith}
use csfassignment.Text.{
  contains, find, find_first_not_of, find_last_not_of, ltrim, rtrim, trim, str_eq,
}
use csfassignment.Text.Trim.{trim_solid}
use csfassignment.Message.{
  Message, message, count, in_tag_table, split_loop, split_payload, tag_delivery,
}
use csfassignment.Message.Split.{cut, split_loop-cut}
use csfassignment.Message.Checks.{IsAccepted, split_payload_three}
use csfassignment.Queue.{MessageQueue, got, fetch}
use csfassignment.Queue.Threads.{
  Shared, push, posts, waits, Reach, start, later, pop_finds_message, popped_in_order,
}
use csfassignment.Heap.{Room}
use csfassignment.Room.{add_member, remove_member}
use csfassignment.Room.Members.{IsAscending}
use csfassignment.Room.Sets.{members_of, include, exclude, members_of_refines}

trim_solid_example : trim (codes " " ++ codes "a b" ++ codes "  ") ≡ codes "a b"
unfolding contains
trim_solid_example =
    trim_solid (codes " ") (codes "a b") (codes "  ") (refl, tt) (refl, (refl, tt)) refl refl

split_loop-cut_example : split_loop 6 (codes "a:b:c") [] ≡ [] ++ cut (codes "a:b:c")
split_loop-cut_example = split_loop-cut 6 (codes "a:b:c") [] (omega arith)

-- A delivery as the receiver gets it.
abbrev note : Message
note = message tag_delivery (codes "tea:ann:hi")

note-IsAccepted : IsAccepted note
unfolding trim ltrim rtrim find_first_not_of find_last_not_of contains find in_tag_table str_eq
    count
note-IsAccepted = record {
  fits = omega arith;
  one_line = ground arith;
  has_part = λ e. cc;
  known = inr (inr (inr (inr (inr (inr (inr (inr (inr (inl refl)))))))));
  structured = λ _. refl;
}

split_payload_three_example :
    (length (split_payload note) ≡ 3) ↔ (IsAccepted note × (count b':' note.payload ≡ 2))
split_payload_three_example = split_payload_three note

abbrev one_waiting : MessageQueue
one_waiting = record { avail = 1; messages = note ∷ [] }

-- One thread has put a message into the queue, and another is about to pop it.
abbrev about_to_pop : Shared
about_to_pop = record {
  queue = record { avail = 0; messages = note ∷ [] };
  posting = 0;
  popping = 1;
  pushed = note ∷ [];
  popped = [];
}

about_to_pop-Reach : Reach about_to_pop
about_to_pop-Reach = later (later (later start (push note)) (posts refl)) (waits 1 refl)

pop_finds_message_example : (m : Message) × ((fetch about_to_pop.queue).0 ≡ got m)
pop_finds_message_example = pop_finds_message about_to_pop-Reach refl

popped_in_order_example : about_to_pop.pushed ≡ about_to_pop.popped ++ about_to_pop.queue.messages
popped_in_order_example = popped_in_order about_to_pop-Reach

abbrev tea : Room
tea = record { room_name = codes "tea"; members = 0 ∷ 3 ∷ [] }

tea-IsAscending : IsAscending tea.members
tea-IsAscending = ((omega arith, tt), (tt, tt))

members_of_refines_example :
    (members_of (add_member 2 tea) ≡ include 2 (members_of tea))
    × (members_of (remove_member 2 tea) ≡ exclude 2 (members_of tea))
members_of_refines_example = members_of_refines 2 tea tea-IsAscending
