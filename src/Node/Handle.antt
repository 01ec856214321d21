-- ===== src/Node/Handle.antt =====
-- The handling of one result of `feed` against the effect of the event that it stands for.
use umsg.Base.{
  ℕ, ◌+◌, ◌==◌, not, le→ltb, lt→ltb, eq→==, ne→==, ◌||◌, if◌then◌else◌, false, Bool-cases, none,
  some, List, [], ◌∷◌, ◌≤◌, ◌<◌, ◌≡◌, ◌≢◌, ◌∙◌, refl, sym, ap, ap₂, arith, length, take, drop,
  get_or, length-take, length-drop, All, inl, inr,
}
use umsg.Common.{ByteSpan, Pointer, HasRoom, contents, Error, ok, region}
use umsg.Marshalling.{read_u16_be, read_u32_be}
use umsg.Marshalling.Prefix.{drop-take, read_u16_be-take, read_u32_be-take, get_or-take}
use umsg.Protocol.{Header, decode_frame}
use umsg.Protocol.Decode.{
  decode_frame-null, decode_frame-short, decode_frame-long, read_frame-right, read_frame-wrong,
}
use umsg.Dispatcher.{Slot, dispatch}
use umsg.Framer.{Result}
use umsg.Framer.Receive.{view_result, view_status}
use umsg.Node.{Node, handle, act, is_ok, no_header, no_span}
use umsg.Node.Stream.{Letter, letter_of, span_of, deliver, effect, ReadsPayload}
use native.Mathlib.Decide.{dec_lt, ℕ_discrete as dec_eq}

take-length : (xs : List ℕ) → take (length xs) xs ≡ xs
take-length [] = refl
take-length (x ∷ xs) = ap (λ t. x ∷ t) (take-length xs)

letter_of-short : (frame : List ℕ) → length frame < 8 → letter_of frame ≡ none
unfolding letter_of
letter_of-short frame h = simp (lt→ltb (length frame) 8 h) refl

letter_of-wrong :
    (frame : List ℕ)
    → 8 ≤ length frame
    → length frame ≢ 8 + read_u16_be frame 6
    → letter_of frame ≡ none
unfolding letter_of
letter_of-wrong frame h e = simp (le→ltb (length frame) 8 h, ne→== (length frame) _ e) refl

pub letter_of-right :
    (frame : List ℕ)
    → length frame ≡ 8 + read_u16_be frame 6
    → letter_of frame
      ≡ some (record {
        version = get_or frame 0 0;
        msg_id = get_or frame 1 0;
        msg_hash = read_u32_be frame 2;
        payload = drop 8 frame;
      })
unfolding letter_of
letter_of-right frame e =
    simp (le→ltb (length frame) 8 (omega arith), eq→== (length frame) _ e) refl

-- The first `n` bytes of a memory as a frame.
letter_of-take :
    (mem : List ℕ) (n : ℕ)
    → n ≤ length mem
    → n ≡ 8 + read_u16_be mem 6
    → letter_of (take n mem)
      ≡ some (record {
        version = get_or mem 0 0;
        msg_id = get_or mem 1 0;
        msg_hash = read_u32_be mem 2;
        payload = take (read_u16_be mem 6) (drop 8 mem);
      })
letter_of-take mem n inside e =
    letter_of-right (take n mem)
      (omega (arith, length-take n mem, read_u16_be-take mem n 6 (omega arith)))
    ∙ simp
        (
          get_or-take mem n 0 0 (omega arith),
          get_or-take mem n 1 0 (omega arith),
          read_u32_be-take mem n 2 (omega arith),
          (ap (λ k. drop 8 (take k mem)) e ∙ drop-take mem 8 (read_u16_be mem 6)),
        )
        refl

module _ {World : Type 0} where
  dispatch-contents :
      (handlers : List (Slot World)) (msg_id hash : ℕ) (p q : ByteSpan) (w : World)
      → All ReadsPayload handlers
      → HasRoom p.data_ptr p.length
      → HasRoom q.data_ptr q.length
      → contents p ≡ contents q
      → dispatch handlers msg_id hash p w ≡ dispatch handlers msg_id hash q w
  unfolding dispatch
  dispatch-contents [] msg_id hash p q w h hp hq same = refl
  dispatch-contents (s ∷ rest) msg_id hash p q w h hp hq same =
      ap₂ (λ later here. if not s.used || not (s.msg_id == msg_id) then later else here)
        (dispatch-contents rest msg_id hash p q w h.1 hp hq same) (h.0 p q hash w hp hq same)

  act-failed :
      (node : Node World) (r : Error × Header × ByteSpan) (w : World)
      → is_ok r.0 ≡ false
      → act node r w ≡ w
  unfolding act
  act-failed node (e, h, p) w failed = simp failed refl

  act-ok :
      (node : Node World) (h : Header) (p : ByteSpan) (w : World)
      → act node (ok, h, p) w ≡ (
          if h.version == node.expected_version
          then (dispatch node.handlers h.msg_id h.msg_hash p w).1
          else w)
  unfolding act is_ok
  act-ok node h p w = ground arith

  deliver-some :
      (handlers : List (Slot World)) (version : ℕ) (l : Letter) (p : ByteSpan) (w : World)
      → All ReadsPayload handlers
      → HasRoom p.data_ptr p.length
      → contents p ≡ l.payload
      → deliver handlers version (some l) w
        ≡ (if l.version == version then (dispatch handlers l.msg_id l.msg_hash p w).1 else w)
  unfolding deliver
  deliver-some handlers version l p w h room same =
      ap (λ (r : Error × World). if l.version == version then r.1 else w)
        (dispatch-contents handlers l.msg_id l.msg_hash (span_of l.payload) p w h (omega arith) room
          (take-length l.payload ∙ sym same))

  act-span :
      (node : Node World) (mem : List ℕ) (n : ℕ) (w : World)
      → All ReadsPayload node.handlers
      → n ≤ length mem
      → act node (decode_frame (record { data_ptr = some mem; length = n }) no_header no_span) w
        ≡ deliver node.handlers node.expected_version (letter_of (take n mem)) w
  unfolding deliver
  act-span node mem n w h inside =
      let size : length (take n mem) ≡ n = omega (arith, length-take n mem) in
      elim (dec_lt n 8) [
        | yes few ↦
            rw
              (
                decode_frame-short no_header no_span mem n few,
                letter_of-short (take n mem) (omega (arith, size)),
              )
              (unfold act is_ok deliver in refl)
        | no enough ↦ elim (dec_eq n (8 + read_u16_be mem 6)) [
          | no wrong ↦
              rw
                (letter_of-wrong (take n mem) (omega (arith, size))
                  (λ e. wrong (omega (arith, e, size, read_u16_be-take mem n 6 (omega arith)))))
                (ap (λ r. act node r w) (decode_frame-long no_header no_span mem n (omega arith))
                  ∙ act-failed node _ w (
                      ap is_ok (read_frame-wrong no_header no_span mem n wrong)
                      ∙ (unfold is_ok in refl)))
          | yes right ↦
              ap (λ r. act node r w)
                (decode_frame-long no_header no_span mem n (omega arith)
                  ∙ read_frame-right no_header no_span mem n right)
              ∙ act-ok node _ _ w
              ∙ sym (
                  ap (λ l. deliver node.handlers node.expected_version l w)
                    (letter_of-take mem n inside right)
                  ∙ deliver-some node.handlers node.expected_version _
                      (record { data_ptr = some (drop 8 mem); length = read_u16_be mem 6 }) w h
                      (omega (arith, length-drop 8 mem)) refl)
        ]
      ]

  act-null :
      (node : Node World) (n : ℕ) (w : World)
      → act node (decode_frame (record { data_ptr = none; length = n }) no_header no_span) w ≡ w
  act-null node n w = rw (decode_frame-null no_header no_span n) (unfold act is_ok in refl)

  -- A complete result has the effect of its frame, and any other result has none.
  pub handle-effect :
      (node : Node World) (r : Result) (w : World)
      → All ReadsPayload node.handlers
      → HasRoom r.frame.data_ptr r.frame.length
      → handle node r w ≡ effect node.handlers node.expected_version (view_result r) w
  unfolding handle effect view_result deliver
  handle-effect node r w h room = elim (Bool-cases r.complete) [
    | inl complete ↦ simp complete (on_frame r.frame.data_ptr r.frame.length room)
    | inr more ↦ simp more (nothing r.status)
  ]
    where
      nothing : (e : Error) → w ≡ effect node.handlers node.expected_version (view_status e) w
      nothing ok = refl
      nothing e = refl

      on_frame :
          (d : Pointer) (n : ℕ)
          → HasRoom d n
          → act node (decode_frame (record { data_ptr = d; length = n }) no_header no_span) w
            ≡ deliver node.handlers node.expected_version (letter_of (region d n)) w
      on_frame none n e =
          act-null node n w
          ∙ ap (λ l. deliver node.handlers node.expected_version l w)
              (sym (letter_of-short [] (omega arith)))
      on_frame (some mem) n e = act-span node mem n w h e
