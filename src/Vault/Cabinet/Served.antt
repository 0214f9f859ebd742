-- ===== src/Vault/Cabinet/Served.antt =====
-- What a chain of calls does to the cabinets, where the server keeps the details of each cabinet and
-- its members as a set.
use iop.Base.{
  ◌≡◌, refl, ap, ◌∙◌, sym, Bool, true, false, not, ◌&&◌, ◌||◌, List, [], ◌∷◌, Option, none, Text,
  text_eq, ◌==◌, includes, if◌then◌else◌, arith, All,
}
use mathlib.Core.Path.{subst}
use iop.Api.{ApiError, Response, resolved, rejected}
use iop.Types.Vault.{CabinetUpdate}
use iop.Vault.Cabinet.{
  CabinetCall, update, add_members, remove_member, create, after_call, await_calls,
}

-- What the server keeps of a cabinet.
pub record Contents : Type 0 where
  pub details : CabinetUpdate
  pub is_member : Text → Bool

abbrev pub joined : List Text → Contents → Contents
joined us k = record k { is_member = λ v. k.is_member v || includes us v }

abbrev pub parted : Text → Contents → Contents
parted u k = record k { is_member = λ v. k.is_member v && not (u == v) }

-- What a call that is resolved does to the cabinet with the id `x`: only a call with this id
-- changes it.
abbrev pub contents_after : Text → CabinetCall → Contents → Contents
contents_after x (update id u) k = if id == x then record k { details = u } else k
contents_after x (add_members id us) k = if id == x then joined us k else k
contents_after x (remove_member id u) k = if id == x then parted u k else k
contents_after x (create c) k = k

abbrev pub after_answer : Text → Response (Unit {0}) → CabinetCall → Contents → Contents
after_answer x (resolved _) c k = contents_after x c k
after_answer x (rejected e) c k = k

-- A call about a cabinet that exists.
abbrev pub is_edit : CabinetCall → Bool
is_edit (create c) = false
is_edit c = true

-- A call that is resolved changes the cabinet of its id as written and no other, a call that is
-- rejected changes none.
pub record Keeps {S : Type 0} (serve : CabinetCall → S → Response (Unit {0}) × S) : Type 0 where
  pub contents : S → Text → Contents
  pub served :
      (c : CabinetCall)
      → is_edit c ≡ true
      → (s : S) (x : Text)
      → contents (serve c s).1 x ≡ after_answer x (serve c s).0 c (contents s x)

abbrev pub all_after : Text → List CabinetCall → Contents → Contents
all_after x [] k = k
all_after x (c ∷ cs) k = all_after x cs (contents_after x c k)

abbrev pub AllEdits : List CabinetCall → Type 0
AllEdits cs = All (λ c. is_edit c ≡ true) cs

module _ {S : Type 0} (serve : CabinetCall → S → Response (Unit {0}) × S)
    (server : Keeps serve) where
  open server use {contents, served}

  rest_after :
      (a : Response (Unit {0})) (t : S) (c : CabinetCall) (cs : List CabinetCall) (k : Contents)
      (x : Text)
      → contents t x ≡ after_answer x a c k
      → ((await_calls serve cs t).0 ≡ none
          → contents (await_calls serve cs t).1 x ≡ all_after x cs (contents t x))
      → (after_call a t (await_calls serve cs t)).0 ≡ none
      → contents (after_call a t (await_calls serve cs t)).1 x
        ≡ all_after x cs (contents_after x c k)
  rest_after (resolved _) t c cs k x now rest ok = rest ok ∙ ap (λ l. all_after x cs l) now
  rest_after (rejected e) t c cs k x now rest ok = absurd (ground arith)

  -- Where all calls are resolved, they change a cabinet one after the other.
  pub await_calls-all_after :
      (cs : List CabinetCall) (s : S) (x : Text)
      → AllEdits cs
      → (await_calls serve cs s).0 ≡ none
      → contents (await_calls serve cs s).1 x ≡ all_after x cs (contents s x)
  unfolding await_calls
  await_calls-all_after [] s x edits ok = refl
  await_calls-all_after (c ∷ cs) s x edits ok =
      rest_after (serve c s).0 (serve c s).1 c cs (contents s x) x (served c edits.0 s x)
        (λ fine. await_calls-all_after cs (serve c s).1 x edits.1 fine) ok

  module _ (P : Contents → Type 0) where
    answered_keeps :
        (a : Response (Unit {0})) (c : CabinetCall) (k : Contents) (x : Text)
        → (P k → P (contents_after x c k))
        → P k
        → P (after_answer x a c k)
    answered_keeps (resolved _) c k x step h = step h
    answered_keeps (rejected e) c k x step h = h

    at_end :
        (a : Response (Unit {0})) (t : S) (rest : Option ApiError × S) (x : Text)
        → P (contents t x)
        → P (contents rest.1 x)
        → P (contents (after_call a t rest).1 x)
    at_end (resolved _) t rest x now after = after
    at_end (rejected e) t rest x now after = now

    -- Whatever is answered, what each of the calls keeps stays true of a cabinet.
    pub await_calls-keeps :
        (cs : List CabinetCall) (s : S) (x : Text)
        → AllEdits cs
        → All (λ c. (k : Contents) → P k → P (contents_after x c k)) cs
        → P (contents s x)
        → P (contents (await_calls serve cs s).1 x)
    unfolding await_calls
    await_calls-keeps [] s x edits steps h = h
    await_calls-keeps (c ∷ cs) s x edits steps h =
        let now =
          subst P (sym (served c edits.0 s x))
            (answered_keeps (serve c s).0 c (contents s x) x (steps.0 (contents s x)) h) in
        at_end (serve c s).0 (serve c s).1 (await_calls serve cs (serve c s).1) x now
          (await_calls-keeps cs (serve c s).1 x edits.1 steps.1 now)
