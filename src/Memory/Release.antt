-- ===== src/Memory/Release.antt =====
-- `sherry_msg_free` gives back the block and the string of a message: sherry.c, lines 208 to 211.
use sherry.Base.{
  ◌+◌, ◌<◌, ◌≡◌, refl, ap, ◌∙◌, ◌≢◌, some, List, [], ◌∷◌, count, erase, count-cons, count-nil,
  count-erase, arith,
}
use sherry.Queues.{Surely, Surely-map}
use sherry.Actor.{Sds, Msg}
use sherry.Dll.{Ptr, null}
use sherry.Memory.{Heap, SdsFree, srfree, sherry_msg_free}
use sherry.Memory.Counted.{Freed, srfree-Freed}

abbrev pub payloads : List Msg → List Sds
payloads [] = []
payloads (x ∷ xs) = x.payload ∷ payloads xs

-- What sds says of `sdsfree`: it frees a live string.
abbrev pub FreesLive : SdsFree → Type 0
FreesLive sdsfree = (s : Sds) (ss : List Sds) → 0 < count s ss → sdsfree s ss ≡ some (erase s ss)

-- The blocks of `ms` and the strings of `ss` are given back, each as often as it stands there.
pub record Released (ms : List Ptr) (ss : List Sds) (h g : Heap) : Type 0 where
  pub blocks : (a : Ptr) → count a g.blocks + count a ms ≡ count a h.blocks
  pub strings : (s : Sds) → count s g.strings + count s ss ≡ count s h.strings

module _ (sdsfree : SdsFree) (frees : FreesLive sdsfree) where
  one-Released :
      (m : Ptr) (ss : List Sds) (h g : Heap)
      → Freed m (record h { strings = ss }) g
      → m ≢ null
      → (s : Sds) → ss ≡ erase s h.strings
      → 0 < count s h.strings
      → Released (m ∷ []) (s ∷ []) h g × (g.nodes ≡ h.nodes) × (g.msg ≡ h.msg)
  one-Released m ss h g f ne s e live = (
    record {
      blocks = λ a. ground (arith, f.fewer a, count-cons a m [], count-nil a, ne);
      strings = λ t. ground (
        arith,
        ap (count t) (f.strings ∙ e),
        count-erase t s h.strings,
        count-cons t s [],
        count-nil t,
        live,
      );
    },
    f.nodes,
    f.msg,
  )

  -- The message at a live block, with a live string.
  pub sherry_msg_free-Released :
      (m : Ptr) (h : Heap)
      → m ≢ null
      → 0 < count m h.blocks
      → 0 < count (h.msg m).payload h.strings
      → Surely
          (λ g.
            Released (m ∷ []) ((h.msg m).payload ∷ []) h g × (g.nodes ≡ h.nodes) × (g.msg ≡ h.msg))
          (sherry_msg_free sdsfree m h)
  unfolding sherry_msg_free
  sherry_msg_free-Released m h ne live string =
      let s = (h.msg m).payload in
      let ss = erase s h.strings in
      rw (frees s h.strings string) (
        Surely-map (Freed m (record h { strings = ss }))
          (λ g. Released (m ∷ []) (s ∷ []) h g × (g.nodes ≡ h.nodes) × (g.msg ≡ h.msg))
          (srfree m (record h { strings = ss }))
          (srfree-Freed m (record h { strings = ss }) (ground (arith, live)))
          (λ g f. one-Released m ss h g f ne s refl string))
