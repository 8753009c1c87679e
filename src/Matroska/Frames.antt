-- ===== src/Matroska/Frames.antt =====
-- What a file of internal/matroska/writer.go holds: frames with their times, as a reader of EBML finds
-- them behind the head.
use mathlib.Core.List.{append-nil, append_assoc}
use fragata.Base.{
  ℕ, ◌+◌, ◌-◌, ◌*◌, ◌≤◌, ◌<◌, ◌≡◌, refl, sym, ap, subst, List, [], ◌∷◌, ◌++◌, Bytes, Option, none,
  some, ltb, if◌then◌else◌, arith,
}
use fragata.Matroska.Ebml.{ok, element, uint_element}
use fragata.Matroska.Header.{id_cluster, id_timestamp, id_simple_block}
use fragata.Matroska.Writer.{block_bytes}
use fragata.Matroska.Sizes.{be_value}
use fragata.Matroska.Elements.{read_element, read_element-element, read_element-uint, IsId}

-- A frame: its track's byte, its time in milliseconds, its flags and its payload.
pub record Frame : Type 0 where
  pub track : ℕ
  pub time : ℕ
  pub flags : ℕ
  pub payload : Bytes

-- The time of a block in a cluster, whose 16 bits are signed.
abbrev pub block_time : ℕ → ℕ → ℕ
block_time start relative =
    if ltb relative 32768 then start + relative else start + relative - 65536

-- The frame of a block.
unfoldable pub read_block : ℕ → Bytes → Option Frame
read_block start (track ∷ high ∷ low ∷ flags ∷ payload) = some (record {
  track = track;
  time = block_time start (high * 256 + low);
  flags = flags;
  payload = payload;
})
read_block start bytes = none

-- The reader of a cluster's blocks, of a cluster, and of the clusters of a file.
pub data ReadsBlocks (start : ℕ) : Bytes → List Frame → Type 0 where
  no_block : ReadsBlocks start [] []
  block :
      (bytes content rest : Bytes) (f : Frame) (fs : List Frame)
      → read_element bytes ≡ some (id_simple_block, content, rest)
      → read_block start content ≡ some f
      → ReadsBlocks start rest fs
      → ReadsBlocks start bytes (f ∷ fs)

pub data ReadsCluster (bytes : Bytes) (fs : List Frame) : Type 0 where
  cluster :
      (content rest : Bytes)
      → read_element bytes ≡ some (id_timestamp, content, rest)
      → ReadsBlocks (be_value 0 content) rest fs
      → ReadsCluster bytes fs

pub data ReadsClusters : Bytes → List Frame → Type 0 where
  no_cluster : ReadsClusters [] []
  next :
      (bytes content rest : Bytes) (fs gs : List Frame)
      → read_element bytes ≡ some (id_cluster, content, rest)
      → ReadsCluster content fs
      → ReadsClusters rest gs
      → ReadsClusters bytes (fs ++ gs)

-- The same from the writer's side: elements put together.
pub data Blocks (start : ℕ) : Bytes → List Frame → Type 0 where
  no_block : Blocks start [] []
  put :
      (content bytes rest : Bytes) (f : Frame) (fs : List Frame)
      → element id_simple_block content ≡ ok bytes
      → read_block start content ≡ some f
      → Blocks start rest fs
      → Blocks start (bytes ++ rest) (f ∷ fs)

pub data Clusters : Bytes → List Frame → Type 0 where
  no_cluster : Clusters [] []
  put :
      (content bytes rest : Bytes) (fs gs : List Frame)
      → element id_cluster content ≡ ok bytes
      → ReadsCluster content fs
      → Clusters rest gs
      → Clusters (bytes ++ rest) (fs ++ gs)

pub read_block-block_bytes :
    (start track absolute flags : ℕ) (payload : Bytes)
    → start ≤ absolute + 32768
    → absolute ≤ start + 32767
    → read_block start (block_bytes start track absolute flags payload)
      ≡ some (record { track = track; time = absolute; flags = flags; payload = payload })
unfolding read_block
read_block-block_bytes start track absolute flags payload early late =
    ap (λ time. some (record { track = track; time = time; flags = flags; payload = payload }))
      (ground arith)

pub Blocks-snoc :
    {start : ℕ} {bytes : Bytes} {fs : List Frame} (content e : Bytes) (f : Frame)
    → element id_simple_block content ≡ ok e
    → read_block start content ≡ some f
    → Blocks start bytes fs
    → Blocks start (bytes ++ e) (fs ++ f ∷ [])
Blocks-snoc {start} content e f made reads Blocks.no_block =
    subst (λ b. Blocks start b (f ∷ [])) (append-nil e)
      (Blocks.put content e [] f [] made reads Blocks.no_block)
Blocks-snoc {start} content e f made reads
      (Blocks.put content' bytes' rest f' fs made' reads' more) =
    subst (λ b. Blocks start b (f' ∷ fs ++ f ∷ [])) (sym (append_assoc bytes' rest e))
      (Blocks.put content' bytes' (rest ++ e) f' (fs ++ f ∷ []) made' reads'
        (Blocks-snoc content e f made reads more))

pub Clusters-snoc :
    {bytes : Bytes} {gs : List Frame} (content e : Bytes) (fs : List Frame)
    → element id_cluster content ≡ ok e
    → ReadsCluster content fs
    → Clusters bytes gs
    → Clusters (bytes ++ e) (gs ++ fs)
Clusters-snoc content e fs made reads Clusters.no_cluster =
    subst (λ b. Clusters b fs) (append-nil e)
      (subst (λ gs. Clusters (e ++ []) gs) (append-nil fs)
        (Clusters.put content e [] fs [] made reads Clusters.no_cluster))
Clusters-snoc content e fs made reads (Clusters.put content' bytes' rest fs' gs made' reads' more) =
    subst (λ b. Clusters b (fs' ++ gs ++ fs)) (sym (append_assoc bytes' rest e))
      (subst (λ l. Clusters (bytes' ++ (rest ++ e)) l) (sym (append_assoc fs' gs fs))
        (Clusters.put content' bytes' (rest ++ e) fs' (gs ++ fs) made' reads'
          (Clusters-snoc content e fs made reads more)))

simple_block-IsId : IsId id_simple_block
unfolding IsId
simple_block-IsId = refl

cluster-IsId : IsId id_cluster
unfolding IsId
cluster-IsId = refl

timestamp-IsId : IsId id_timestamp
unfolding IsId
timestamp-IsId = refl

-- What was put together is read.
Blocks-read :
    {start : ℕ} {bytes : Bytes} {fs : List Frame}
    → Blocks start bytes fs
    → ReadsBlocks start bytes fs
Blocks-read Blocks.no_block = ReadsBlocks.no_block
Blocks-read (Blocks.put content bytes rest f fs made reads more) =
    ReadsBlocks.block (bytes ++ rest) content rest f fs
      (read_element-element id_simple_block content bytes rest simple_block-IsId made) reads
      (Blocks-read more)

pub Clusters-read : {bytes : Bytes} {fs : List Frame} → Clusters bytes fs → ReadsClusters bytes fs
Clusters-read Clusters.no_cluster = ReadsClusters.no_cluster
Clusters-read (Clusters.put content bytes rest fs gs made reads more) =
    ReadsClusters.next (bytes ++ rest) content rest fs gs
      (read_element-element id_cluster content bytes rest cluster-IsId made) reads
      (Clusters-read more)

pub cluster-read :
    (start : ℕ) (timestamp bytes : Bytes) (fs : List Frame)
    → start < 18_446_744_073_709_551_616
    → uint_element id_timestamp start ≡ ok timestamp
    → Blocks start bytes fs
    → ReadsCluster (timestamp ++ bytes) fs
cluster-read start timestamp bytes fs small made blocks =
    let (content, reads, value) =
      read_element-uint id_timestamp start timestamp bytes timestamp-IsId small made in
    ReadsCluster.cluster content bytes reads
      (subst (λ s. ReadsBlocks s bytes fs) (sym value) (Blocks-read blocks))
