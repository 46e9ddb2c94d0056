-- ===== src/Reactor/Acceptor/Ready.antt =====
-- What `Acceptor::Ready` of src/reactor/acceptor.cc returns, and the socket that it leaves.
use serach_engine.Base.{◌≡◌, refl, ◌⊎◌, inl, inr, true, false}
use serach_engine.Base.Int.{ℤ, pos, negsuc, int_eq, int_beq}
use serach_engine.Reactor.Acceptor.{
  Acceptor, Answers, set_reuse_addr, set_reuse_port, bind, listen, ready,
}

-- 0, or -1 for an error, as the manual pages say.
abbrev pub IsAnswer : ℤ → Type 0
IsAnswer ret = (ret ≡ pos 0) ⊎ (ret ≡ negsuc 0)

pub record AreAnswers (a : Answers) : Type 0 where
  pub reuse_addr : IsAnswer a.to_reuse_addr
  pub reuse_port : IsAnswer a.to_reuse_port
  pub bind : IsAnswer a.to_bind
  pub listen : IsAnswer a.to_listen

-- Each of the four calls succeeded.
abbrev pub all_set : Acceptor
all_set = record { reuse_addr = true; reuse_port = true; bound = true; listening = true }

-- Some call failed.
abbrev pub HasError : Answers → Type 0
HasError a =
    (a.to_reuse_addr ≡ negsuc 0)
    ⊎ (a.to_reuse_port ≡ negsuc 0)
    ⊎ (a.to_bind ≡ negsuc 0)
    ⊎ (a.to_listen ≡ negsuc 0)

-- When each of the four calls is answered by 0 or -1 and the socket does not listen, Ready either
-- returns 0 with both options set and the socket bound and listening, or one of the calls failed,
-- and it returns -1 and the socket does not listen.
pub ready-result :
    (a : Answers) (s : Acceptor)
    → AreAnswers a
    → s.listening ≡ false
    → (((ready a s).0 ≡ pos 0) × ((ready a s).1 ≡ all_set))
      ⊎ (((ready a s).0 ≡ negsuc 0) × ((ready a s).1.listening ≡ false) × HasError a)
unfolding ready set_reuse_addr set_reuse_port bind listen int_beq
ready-result a s v idle = elim v.reuse_addr [
  | inr e1 ↦ rw (e1, ready) (inr (refl, idle, inl refl))
  | inl o1 ↦ elim v.reuse_port [
    | inr e2 ↦ rw (o1, e2, ready) (inr (refl, idle, inr (inl refl)))
    | inl o2 ↦ elim v.bind [
      | inr e3 ↦ rw (o1, o2, e3, ready) (inr (refl, idle, inr (inr (inl refl))))
      | inl o3 ↦ elim v.listen [
        | inr e4 ↦ rw (o1, o2, o3, e4, ready) (inr (refl, idle, inr (inr (inr refl))))
        | inl o4 ↦ rw (o1, o2, o3, o4, ready) (inl (refl, refl))
      ]
    ]
  ]
]
