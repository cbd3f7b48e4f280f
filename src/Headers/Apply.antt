-- ===== src/Headers/Apply.antt =====
-- What a policy makes of a response's headers.
use kubio.Prelude.{
  ◌≡◌, refl, sym, ◌∙◌, subst, true, false, ◌||◌, ◌&&◌, List, [], ◌∷◌, ◌++◌, if◌then◌else◌,
  Bool-cases, inl, inr, arith, append-nil, not,
}
use kubio.Text.{Text, text_eq}
use kubio.Text.Laws.{text_eq_iff, text_eq_refl}
use kubio.Net.{Values, values_of}
use kubio.Headers.{
  put, delete, has_key, contains_header_name, remove_headers, set_headers, add_headers,
  apply_response_headers, ResponseHeaderPolicy, is_member,
}

different :
    (key k name : Text) → text_eq k key ≡ false → text_eq k name ≡ true → text_eq key name ≡ false
different key k name other h = elim (Bool-cases (text_eq key name)) [
  | inr e ↦ e
  | inl e ↦
      let same : k ≡ key = (text_eq_iff k name).0 h ∙ sym ((text_eq_iff key name).0 e) in
      absurd (ground (arith, (text_eq_iff k key).1 same, other))
]

flip : (s t : Text) → text_eq s t ≡ false → text_eq t s ≡ false
flip s t h = elim (Bool-cases (text_eq t s)) [
  | inr e ↦ e
  | inl e ↦ absurd (ground (arith, (text_eq_iff s t).1 (sym ((text_eq_iff t s).0 e)), h))
]

pub values_of-put :
    (name key : Text) (values : List Text) (h : Values)
    → values_of name (put key values h) ≡ (if text_eq key name then values else values_of name h)
unfolding values_of put
values_of-put name key values [] = refl
values_of-put name key values ((k, old) ∷ h) = elim (Bool-cases (text_eq k key)) [
  | inl same ↦
      let e : k ≡ key = (text_eq_iff k key).0 same in
      rw same (
        subst
          (λ x. (if text_eq x name then values else values_of name h) ≡ (
            if text_eq key name
            then values
            else (if text_eq x name then old else values_of name h)))
          (sym e) (ground arith))
  | inr other ↦
      rw (other, values_of-put name key values h)
        (elim (Bool-cases (text_eq k name)) [
          | inr far ↦ rw far refl
          | inl near ↦ rw (near, different key k name other near) refl
        ])
]

pub values_of-delete :
    (name key : Text) (h : Values)
    → values_of name (delete key h) ≡ (if text_eq key name then [] else values_of name h)
unfolding values_of delete
values_of-delete name key [] = ground arith
values_of-delete name key ((k, old) ∷ h) = elim (Bool-cases (text_eq k key)) [
  | inl same ↦
      let e : k ≡ key = (text_eq_iff k key).0 same in
      rw (same, values_of-delete name key h)
        (subst
          (λ x.
            (if text_eq key name then [] else values_of name h)
            ≡ (if text_eq key name then [] else (if text_eq x name then old else values_of name h)))
          (sym e) (ground arith))
  | inr other ↦
      rw (other, values_of-delete name key h)
        (elim (Bool-cases (text_eq k name)) [
          | inr far ↦ rw far refl
          | inl near ↦ rw (near, different key k name other near) refl
        ])
]

-- Each name stands once among the entries.
abbrev pub Distinct : Values → Type 0
Distinct [] = Unit
Distinct ((name, values) ∷ rest) = (has_key name rest ≡ false) × Distinct rest

remove_headers-values :
    (trailer : Values) (name : Text) (names : List Text) (h : Values)
    → values_of name (remove_headers trailer names h) ≡ (
        if not (contains_header_name trailer name) && is_member name names
        then []
        else values_of name h)
unfolding remove_headers
remove_headers-values trailer name [] h = ground arith
remove_headers-values trailer name (key ∷ names) h =
    rw
      (remove_headers-values trailer name names
        (if contains_header_name trailer key then h else delete key h))
      (elim (Bool-cases (text_eq name key)) [
        | inl same ↦
            let e : name ≡ key = (text_eq_iff name key).0 same in
            subst
              (λ x.
                (if not (contains_header_name trailer name) && is_member name names
                  then []
                  else values_of name (if contains_header_name trailer x then h else delete x h))
                ≡ (if not (contains_header_name trailer name)
                      && (text_eq name x || is_member name names)
                    then []
                    else values_of name h))
              e (ground (arith, values_of-delete name name h, text_eq_refl name))
        | inr other ↦ ground (arith, values_of-delete name key h, flip name key other)
      ])

set_headers-values :
    (trailer : Values) (name : Text) (policy h : Values)
    → Distinct policy
    → values_of name (set_headers trailer policy h) ≡ (
        if not (contains_header_name trailer name) && has_key name policy
        then values_of name policy
        else values_of name h)
unfolding set_headers values_of
set_headers-values trailer name [] h d = ground arith
set_headers-values trailer name ((key, v) ∷ policy) h (new, d) =
    rw
      (set_headers-values trailer name policy
        (if contains_header_name trailer key then h else put key v h) d)
      (elim (Bool-cases (text_eq key name)) [
        | inr other ↦ ground (arith, values_of-put name key v h, other)
        | inl same ↦
            let e : key ≡ name = (text_eq_iff key name).0 same in
            let new' = subst (λ x. has_key x policy ≡ false) e new in
            subst
              (λ x.
                (if not (contains_header_name trailer name) && has_key name policy
                  then values_of name policy
                  else values_of name (if contains_header_name trailer x then h else put x v h))
                ≡ (if not (contains_header_name trailer name)
                      && (text_eq x name || has_key name policy)
                    then (if text_eq x name then v else values_of name policy)
                    else values_of name h))
              (sym e) (ground (arith, values_of-put name name v h, text_eq_refl name, new'))
      ])

values_of-none : (name : Text) (h : Values) → has_key name h ≡ false → values_of name h ≡ []
unfolding values_of
values_of-none name [] e = refl
values_of-none name ((key, v) ∷ h) e = ground (arith, values_of-none name h)

add_headers-values :
    (trailer : Values) (name : Text) (policy h : Values)
    → Distinct policy
    → values_of name (add_headers trailer policy h) ≡ (
        if contains_header_name trailer name
        then values_of name h
        else values_of name h ++ values_of name policy)
unfolding add_headers values_of
add_headers-values trailer name [] h d = ground (arith, append-nil (values_of name h))
add_headers-values trailer name ((key, v) ∷ policy) h (new, d) =
    rw
      (add_headers-values trailer name policy
        (if contains_header_name trailer key then h else put key (values_of key h ++ v) h) d)
      (elim (Bool-cases (text_eq key name)) [
        | inr other ↦ ground (arith, values_of-put name key (values_of key h ++ v) h, other)
        | inl same ↦
            let e : key ≡ name = (text_eq_iff key name).0 same in
            let new' = values_of-none name policy (subst (λ x. has_key x policy ≡ false) e new) in
            subst
              (λ x.
                (if contains_header_name trailer name
                  then values_of name
                      (if contains_header_name trailer x then h else put x (values_of x h ++ v) h)
                  else values_of name
                      (if contains_header_name trailer x then h else put x (values_of x h ++ v) h)
                    ++ values_of name policy)
                ≡ (if contains_header_name trailer name
                    then values_of name h
                    else values_of name h ++ (if text_eq x name then v else values_of name policy)))
              (sym e)
              (ground (
                arith,
                values_of-put name name (values_of name h ++ v) h,
                text_eq_refl name,
                new',
                append-nil (values_of name h ++ v),
              ))
      ])

-- Where the policy sets each name once and adds each name once: applyResponseHeaders leaves the
-- values of a name that the trailer holds in any case, and makes of another name's values those set,
-- or none if the name is only removed, or else the old ones, followed by those added.
pub apply_response_headers-values :
    (trailer : Values) (policy : ResponseHeaderPolicy) (h : Values) (name : Text)
    → Distinct policy.set_values
    → Distinct policy.add_values
    → values_of name (apply_response_headers trailer policy h) ≡ (
        if contains_header_name trailer name
        then values_of name h
        else (if has_key name policy.set_values
            then values_of name policy.set_values
            else if is_member name policy.remove_names
            then []
            else values_of name h)
          ++ values_of name policy.add_values)
unfolding apply_response_headers
apply_response_headers-values trailer policy h name d e =
    let removed = remove_headers trailer policy.remove_names h in
    let changed = set_headers trailer policy.set_values removed in
    ground (
      arith,
      add_headers-values trailer name policy.add_values changed e,
      set_headers-values trailer name policy.set_values removed d,
      remove_headers-values trailer name policy.remove_names h,
    )
