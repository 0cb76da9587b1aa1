-- ===== src/ConnectionCache/Adding.antt =====
-- AddConnection on a sound cache.
use msg_courier.Prelude.{
  ℕ, suc, ◌<◌, ◌≡◌, ◌≢◌, refl, sym, ℤ, pos, true, false, Option, none, some, [], ◌∷◌, ◌++◌, arith,
  All-map, All-append, inl, inr, Option-cases, subst,
}
use msg_courier.Memory.{Block, Malloc, Allocates, Returns}
use msg_courier.MsgPool.Cells.{Absent}
use msg_courier.Buffer
use msg_courier.Buffer.{Buffer}
use msg_courier.Buffer.Valid
use msg_courier.Buffer.Grow.{Grown, set_buffer_size-Grown}
use msg_courier.ConnectionCache.{
  node, finish, crs_waiting, Conn, Node, Cache, in_bounds, put_record, blank, or_blank, arrival,
  link, admit, add_connection,
}
use msg_courier.ConnectionCache.Nodes.{
  socks, Distinct-append, Absent-append_back, below-Absent, All-Absent,
}
use msg_courier.ConnectionCache.Sound.{IsLinked, IsSound}
use msg_courier.ConnectionCache.Freeing.{
  put_record_self, put_record_ne, IsLinked-put_record, put_record_keeps,
}

-- The socket is at the end of the list, with a record of its own.
pub record Added (s now : ℕ) (port : ℤ) (c c' : Cache) : Type 0 where
  pub sound : IsSound c'
  pub listed : c'.active ≡ c.active ++ record { id = c.fresh; sock = s } ∷ []
  pub mark : c'.marker ≡ c.marker
  pub conn : Conn
  pub at : c'.table s ≡ some conn
  pub as_asked : (conn.timestamp ≡ now) × (conn.arrival_port ≡ port)
  pub empty : Buffer.bytes conn.buffer ≡ []
  pub unused : (conn.active_handler ≡ none) × (conn.pending_write ≡ false)
  pub others : (q : ℕ) → q ≢ s → c'.table q ≡ c.table q

Grown-IsValid : (b : Buffer) (n : ℕ) (b' : Buffer) → Grown b n b' → Valid.IsValid b'
Grown-IsValid b n b' g = record {
  held = subst (λ blk. Valid.Held blk b'.size b'.tail) (sym g.at) (g.fits, g.inside);
}

module _ (s : ℕ) (c : Cache) (sound : IsSound c) (new : Absent s (socks c.active)) where
  pub link-IsSound :
      (r : Conn)
      → in_bounds s ≡ true
      → r.state ≡ crs_waiting
      → r.socketfd ≡ pos s
      → Valid.IsValid r.buffer
      → IsSound (link s r c)
  unfolding link
  link-IsSound r range waiting own v = record {
    once = Distinct-append (λ n. n.sock) c.active n sound.once new;
    numbered =
        Distinct-append (λ n. n.id) c.active n sound.numbered
          (below-Absent c.fresh c.active sound.below);
    below =
        All-append _ c.active (n ∷ [])
          (All-map _ (λ m. m.id < suc c.fresh) c.active (λ m h. omega arith) sound.below)
          (omega arith, tt);
    linked =
        All-append (IsLinked (put_record s r' c.table)) c.active (n ∷ [])
          (All-map _ (IsLinked (put_record s r' c.table)) c.active
            (IsLinked-put_record s r' c.table)
            (All-Absent (IsLinked c.table) s c.active sound.linked new))
          (
            record {
              conn = r';
              at = put_record_self s r' c.table;
              waiting = waiting;
              own = own;
              back = refl;
              bounded = range;
            },
            tt,
          );
    idle =
        put_record_keeps s c sound (λ q x. Absent q (socks (c.active ++ n ∷ [])) → x.place ≡ finish)
          r' (λ a. absurd ((Absent-append_back s c.active n a).1 refl))
          (λ q x ne e a. sound.idle q x e (Absent-append_back q c.active n a).0);
    buffers =
        put_record_keeps s c sound (λ q x. Valid.IsValid x.buffer) r' v
          (λ q x ne e. sound.buffers q x e);
  }
    where
      n : Node
      n = record { id = c.fresh; sock = s }

      r' : Conn
      r' = record r { place = node c.fresh }

  module _ (malloc : Malloc) (works : Allocates malloc) (now : ℕ) (address : Block) (port : ℤ) where
    admit-Added :
        (r : Conn)
        → in_bounds s ≡ true
        → Valid.IsValid r.buffer
        → Returns (Added s now port c) (admit malloc now address port s r c)
    unfolding admit link Buffer.reset
    admit-Added r range v =
        let (sized, ran, grown) = set_buffer_size-Grown malloc works 8096 r.buffer v in
        rw (ran, admit)
          (record {
            sound =
                link-IsSound (arrival now address port s (Buffer.reset sized) r) range refl refl
                  (Valid.reset-IsValid sized (Grown-IsValid r.buffer 8096 sized grown));
            listed = refl;
            mark = refl;
            conn = record (arrival now address port s (Buffer.reset sized) r) {
              place = node c.fresh;
            };
            at = put_record_self s _ c.table;
            as_asked = (refl, refl);
            empty = content_empty sized.block;
            unused = (refl, refl);
            others = λ q ne. put_record_ne s q _ c.table ne;
          })
      where
        content_empty : (blk : Option Block) → Buffer.content blk 0 ≡ []
        content_empty none = refl
        content_empty (some m) = refl

    or_blank-IsValid : Valid.IsValid (or_blank (c.table s)).buffer
    unfolding or_blank blank
    or_blank-IsValid = elim (Option-cases (c.table s)) [
      | inl e ↦ rw (e, or_blank) Valid.new-IsValid
      | inr (r, e) ↦ rw (e, or_blank) (sound.buffers s r e)
    ]

    -- With memory left, on a sound cache without a node of the socket, AddConnection of a socket
    -- within bounds returns: the cache stays sound, the list ends with a node of the socket, its
    -- record has the time and the port, an empty buffer and no handler, and the other records
    -- stay.
    pub add_connection-Added :
        in_bounds s ≡ true
        → Returns (Added s now port c) (add_connection malloc now address port s c)
    unfolding add_connection
    add_connection-Added range =
        rw (range, add_connection) (admit-Added (or_blank (c.table s)) range or_blank-IsValid)
