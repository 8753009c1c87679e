-- ===== src/Livestream/Fragments.antt =====
-- internal/livestream/manager.go: what the reader of FFmpeg's output hands on.
use mathlib.Core.Option
use mathlib.Core.List.{append-nil, append_assoc}
use fragata.Base.{
  ℕ, ◌≡◌, refl, sym, ap, ◌∙◌, true, false, List, [], ◌∷◌, ◌++◌, Bytes, bytes_eq, codes, Option,
  some, All,
}
use fragata.Livestream.Reader.{
  Metadata, metadata_from_init, index, Reader, new_reader, Reading, quiet, makes_ready, sends,
  breaks, begin_media, on_media, on_box,
}

-- A box with its type.
abbrev pub Item : Type 0
Item = Bytes × Bytes

abbrev pub bytes_of : List Item → Bytes
bytes_of [] = []
bytes_of ((kind, content) ∷ items) = content ++ bytes_of items

-- Neither begins nor ends a fragment.
abbrev pub IsOther : Item → Type 0
IsOther (kind, content) =
    (bytes_eq kind (codes "moof") ≡ false) × (bytes_eq kind (codes "mdat") ≡ false)

abbrev pub IsNotMoof : Item → Type 0
IsNotMoof (kind, content) = bytes_eq kind (codes "moof") ≡ false

-- Boxes before the `moof`, the `moof`, boxes behind it, and the `mdat`.
pub record Fragment : Type 0 where
  pub before : List Item
  pub head : ℕ
  pub moof : Bytes
  pub between : List Item
  pub mdat : Bytes

abbrev IsFragment : Fragment → Type 0
IsFragment f = All IsOther f.before × All IsOther f.between

-- From the `moof` on, whose content is not empty.
abbrev pub body_of : Fragment → List Item
body_of f = (codes "moof", f.head ∷ f.moof) ∷ f.between ++ (codes "mdat", f.mdat) ∷ []

abbrev items_of : Fragment → List Item
items_of f = f.before ++ body_of f

abbrev pub all_items : List Fragment → List Item
all_items [] = []
all_items (f ∷ fragments) = items_of f ++ all_items fragments

abbrev pub all_sent : List Fragment → List Reading
all_sent [] = []
all_sent (f ∷ fragments) = sends (bytes_of (items_of f)) ∷ all_sent fragments

abbrev with_call : Reading → List Reading → List Reading
with_call quiet calls = calls
with_call (makes_ready metadata init_segment) calls = makes_ready metadata init_segment ∷ calls
with_call (sends content) calls = sends content ∷ calls
with_call breaks calls = breaks ∷ []

-- The calls that the loop makes on these boxes.
unfoldable pub read_all : (Metadata → Option Bytes) → Bytes → List Item → Reader → List Reading
read_all encode mode [] r = []
read_all encode mode ((kind, content) ∷ items) r =
    let next = on_box encode mode kind content r in
    with_call next.1 (read_all encode mode items next.0)

module _ (encode : Metadata → Option Bytes) (mode : Bytes) where
  -- A reader of media.
  abbrev media : Bytes → Bytes → Bytes → Reader
  media init_segment prefix fragment = record {
    init_segment = init_segment;
    fragment = fragment;
    prefix = prefix;
    ready = true;
  }

  abbrev unready : Bytes → Reader
  unready init_segment = record {
    init_segment = init_segment;
    fragment = [];
    prefix = [];
    ready = false;
  }

  read_init :
      (init items : List Item) (start : Bytes)
      → All IsNotMoof init
      → read_all encode mode (init ++ items) (unready start)
        ≡ read_all encode mode items (unready (start ++ bytes_of init))
  unfolding read_all on_box
  read_init [] items start all = rw (append-nil start) refl
  read_init ((kind, content) ∷ init) items start all = rw all.0 (
      read_init init items (start ++ content) all.1
      ∙ ap (λ b. read_all encode mode items (unready b))
          (append_assoc start content (bytes_of init)))

  -- Other boxes are kept before a fragment, and belong to it once it has begun.
  read_before :
      (others items : List Item) (init prefix : Bytes)
      → All IsOther others
      → read_all encode mode (others ++ items) (media init prefix [])
        ≡ read_all encode mode items (media init (prefix ++ bytes_of others) [])
  unfolding read_all on_box on_media
  read_before [] items init prefix all = rw (append-nil prefix) refl
  read_before ((kind, content) ∷ others) items init prefix all = rw all.0.0 (
      rw all.0.1 (
        read_before others items init (prefix ++ content) all.1
        ∙ ap (λ b. read_all encode mode items (media init b []))
            (append_assoc prefix content (bytes_of others))))

  read_between :
      (others items : List Item) (init : Bytes) (b : ℕ) (fragment : Bytes)
      → All IsOther others
      → read_all encode mode (others ++ items) (media init [] (b ∷ fragment))
        ≡ read_all encode mode items (media init [] (b ∷ fragment ++ bytes_of others))
  unfolding read_all on_box on_media
  read_between [] items init b fragment all = rw (append-nil fragment) refl
  read_between ((kind, content) ∷ others) items init b fragment all = rw all.0.0 (
      rw all.0.1 (
        read_between others items init b (fragment ++ content) all.1
        ∙ ap (λ x. read_all encode mode items (media init [] (b ∷ x)))
            (append_assoc fragment content (bytes_of others))))

  bytes_of-append : (xs ys : List Item) → bytes_of (xs ++ ys) ≡ bytes_of xs ++ bytes_of ys
  bytes_of-append [] ys = refl
  bytes_of-append ((kind, content) ∷ xs) ys =
      rw (bytes_of-append xs ys) (sym (append_assoc content (bytes_of xs) (bytes_of ys)))

  -- A fragment whose `moof` has been read.
  read_rest :
      (between items : List Item) (mdat init : Bytes) (b : ℕ) (start : Bytes)
      → All IsOther between
      → read_all encode mode
          ((between ++ (codes "mdat", mdat) ∷ []) ++ items)
          (media init [] (b ∷ start))
        ≡ sends (b ∷ start ++ bytes_of (between ++ (codes "mdat", mdat) ∷ []))
          ∷ read_all encode mode items (media init [] [])
  unfolding read_all on_box on_media bytes_eq
  read_rest between items mdat init b start all =
      let mdat_item : Item = (codes "mdat", mdat) in
      let sent : (start ++ bytes_of between) ++ mdat
          ≡ start ++ bytes_of (between ++ mdat_item ∷ []) =
        rw (bytes_of-append between (mdat_item ∷ []), append-nil mdat)
          (append_assoc start (bytes_of between) mdat) in
      ap (λ xs. read_all encode mode xs (media init [] (b ∷ start)))
        (append_assoc between (mdat_item ∷ []) items)
      ∙ read_between between (mdat_item ∷ items) init b start all
      ∙ ap (λ x. sends (b ∷ x) ∷ read_all encode mode items (media init [] [])) sent

  moof_sends :
      (f : Fragment) (items : List Item) (init prefix : Bytes)
      → All IsOther f.between
      → read_all encode mode (body_of f ++ items) (media init prefix [])
        ≡ sends (prefix ++ bytes_of (body_of f)) ∷ read_all encode mode items (media init [] [])
  unfolding read_all on_box on_media bytes_eq
  moof_sends f items init [] all = read_rest f.between items f.mdat init f.head f.moof all
  moof_sends f items init (b ∷ prefix) all =
      read_rest f.between items f.mdat init b (prefix ++ f.head ∷ f.moof) all
      ∙ ap (λ x. sends (b ∷ x) ∷ read_all encode mode items (media init [] []))
          (append_assoc prefix (f.head ∷ f.moof)
            (bytes_of (f.between ++ (codes "mdat", f.mdat) ∷ [])))

  fragment_sends :
      (f : Fragment) (items : List Item) (init : Bytes)
      → IsFragment f
      → read_all encode mode (items_of f ++ items) (media init [] [])
        ≡ sends (bytes_of (items_of f)) ∷ read_all encode mode items (media init [] [])
  fragment_sends f items init all =
      ap (λ xs. read_all encode mode xs (media init [] []))
        (append_assoc f.before (body_of f) items)
      ∙ read_before f.before (body_of f ++ items) init [] all.0
      ∙ moof_sends f items init (bytes_of f.before) all.1
      ∙ ap (λ x. sends x ∷ read_all encode mode items (media init [] []))
          (sym (bytes_of-append f.before (body_of f)))

  fragments_send :
      (fragments : List Fragment) (init : Bytes)
      → All IsFragment fragments
      → read_all encode mode (all_items fragments) (media init [] []) ≡ all_sent fragments
  unfolding read_all
  fragments_send [] init all = refl
  fragments_send (f ∷ fragments) init all =
      fragment_sends f (all_items fragments) init all.0
      ∙ ap (◌∷◌ (sends (bytes_of (items_of f)))) (fragments_send fragments init all.1)

  -- The first fragment is behind the initial segment, which has all the boxes before its `moof`.
  first_sends :
      (f : Fragment) (items : List Item) (init encoded : Bytes)
      → Option.bind (metadata_from_init init mode) encode ≡ some encoded
      → All IsOther f.between
      → read_all encode mode (body_of f ++ items) (unready init)
        ≡ makes_ready encoded init
          ∷ sends (bytes_of (body_of f))
          ∷ read_all encode mode items (media init [] [])
  unfolding read_all on_box begin_media bytes_eq Option.bind metadata_from_init index
  first_sends f items init encoded e all = rw e (
      ap (◌∷◌ (makes_ready encoded init)) (read_rest f.between items f.mdat init f.head f.moof all))

  -- From a stream of an initial segment and fragments, each of boxes around one `moof` and one `mdat`
  -- behind it, the first with nothing before its `moof`, the goroutine that reads FFmpeg's output makes
  -- these calls and no others, if the initial segment can be described: `setReady` with its description
  -- and all its bytes, and then `broadcast` for every fragment with all the fragment's bytes, once and
  -- in order. Which viewers have room for a fragment is not part of this.
  pub read_all-fragments :
      (init : List Item) (first : Fragment) (fragments : List Fragment) (encoded : Bytes)
      → All IsNotMoof init
      → All IsOther first.between
      → All IsFragment fragments
      → Option.bind (metadata_from_init (bytes_of init) mode) encode ≡ some encoded
      → read_all encode mode (init ++ (body_of first ++ all_items fragments)) new_reader
        ≡ makes_ready encoded (bytes_of init)
          ∷ sends (bytes_of (body_of first))
          ∷ all_sent fragments
  read_all-fragments init first fragments encoded plain between whole e =
      read_init init (body_of first ++ all_items fragments) [] plain
      ∙ first_sends first (all_items fragments) (bytes_of init) encoded e between
      ∙ ap (λ calls. makes_ready encoded (bytes_of init) ∷ sends (bytes_of (body_of first)) ∷ calls)
          (fragments_send fragments (bytes_of init) whole)
