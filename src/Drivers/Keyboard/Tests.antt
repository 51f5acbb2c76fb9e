-- ===== src/Drivers/Keyboard/Tests.antt =====
-- Runs of kernel/drivers/keyboard.c, and its theorems at a concrete state.
use relis.Prelude.{
  ℕ, ◌≤◌, ◌<◌, ◌≡◌, refl, ◌≢◌, inr, [], ◌∷◌, ◌++◌, arith, replicate, length-replicate,
}
use relis.Drivers.Keyboard.{
  Keyboard, kb_buf_size, push, keyboard_poll, kb_irq, keyboard_init, decode, is_letter, modifier,
  press, release,
}
use relis.Drivers.Keyboard.Typing.{Types, kb_irq-Types}
use relis.Drivers.Keyboard.Ring.{IsValid, contents, count, push-contents, keyboard_poll-contents}

abbrev idle_keys : Keyboard
idle_keys = record {
  buf = replicate kb_buf_size 0;
  rp = 0;
  wp = 0;
  shift = 0;
  ctrl = 0;
  alt = 0;
  caps = 0;
  num = 0;
  scroll = 0;
  extended = 0;
}

idle_keys-IsValid : IsValid idle_keys
idle_keys-IsValid = record {
  size = length-replicate {A = ℕ} kb_buf_size 0;
  read = omega arith;
  write = omega arith;
}

-- the scan codes of Shift, A, the release of Shift, and A again
typed : (keyboard_poll (kb_irq 0x1e (kb_irq 0xaa (kb_irq 0x1e (kb_irq 0x2a idle_keys))))).0 ≡ b'A'
unfolding keyboard_poll kb_irq push press release modifier decode is_letter
typed = refl

start_over : (keyboard_init (kb_irq 0x1e idle_keys)).wp ≡ 0
unfolding keyboard_init kb_irq
start_over = refl

push-contents_example :
    (count idle_keys < 255 → contents (push 65 idle_keys) ≡ contents idle_keys ++ 65 ∷ [])
    × (255 ≤ count idle_keys → push 65 idle_keys ≡ idle_keys)
    × IsValid (push 65 idle_keys)
push-contents_example = push-contents idle_keys 65 idle_keys-IsValid

keyboard_poll-contents_example :
    (contents (push 65 idle_keys) ≡ [] → keyboard_poll (push 65 idle_keys) ≡ (0, push 65 idle_keys))
    × (contents (push 65 idle_keys) ≢ []
        → contents (push 65 idle_keys)
          ≡ (keyboard_poll (push 65 idle_keys)).0 ∷ contents (keyboard_poll (push 65 idle_keys)).1)
    × IsValid (keyboard_poll (push 65 idle_keys)).1
keyboard_poll-contents_example =
    keyboard_poll-contents (push 65 idle_keys) (push-contents idle_keys 65 idle_keys-IsValid).2

-- the key Q and the right shift key
kb_irq-Types_example : Types 0x10 b'q' 0x36 idle_keys
kb_irq-Types_example =
    kb_irq-Types 0 0x36 idle_keys (inr refl) idle_keys-IsValid (refl, refl, refl, refl)
      (omega arith)
