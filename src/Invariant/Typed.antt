-- ===== src/Invariant/Typed.antt =====
-- The typed functions of the API keep what the functions that they stand on keep.
use esio.Prelude.{ℤ, Bool, Option, List}
use esio.Io.{Text, ElementType, Handle, HandlePointer}
use esio.Elements.{
  conforms, close_type, field_write, field_read, field_writev, field_readv, plane_write, plane_read,
  plane_writev, plane_readv, line_write, line_read, line_writev, line_readv,
}
use esio.Sizes.{field_sizev, plane_sizev, line_sizev}
use esio.Attribute.{attribute_write, attribute_read}
use esio.Io.Keeps.{Keeps}
use esio.Error.Keeps.{error_rules}
use esio.Invariant.Reads.{
  Keeps-field_read_internal, Keeps-plane_read_internal, Keeps-line_read_internal,
}
use esio.Invariant.Queries.{Keeps-attribute_writev, Keeps-attribute_readv}
use esio.Invariant.Queries.{query_rules}
use esio.Invariant.Writes.{
  IgnoresChunks, Keeps-field_write_internal, Keeps-plane_write_internal, Keeps-line_write_internal,
}

module _ {P : Handle → Type 0} where
  pub Keeps-conforms : (stride n type : ℤ) → Keeps P (conforms stride n type)
  unfolding conforms
  Keeps-conforms stride n type = search error_rules depth 30

  pub Keeps-close_type : (type retval : ℤ) → Keeps P (close_type type retval)
  unfolding close_type
  Keeps-close_type type retval = search error_rules depth 30

  pub Keeps-field_read :
      (t : ElementType) (p : HandlePointer) (name : Option Text) (elements : Bool) (c b a : ℤ)
      → Keeps P (field_read t p name elements c b a)
  unfolding field_read
  Keeps-field_read t p name elements c b a =
      search (error_rules, Keeps-field_read_internal) depth 60

  pub Keeps-field_readv :
      (t : ElementType) (p : HandlePointer) (name : Option Text) (elements : Bool) (c b a n : ℤ)
      → Keeps P (field_readv t p name elements c b a n)
  unfolding field_readv
  Keeps-field_readv t p name elements c b a n =
      search (query_rules, Keeps-conforms, Keeps-close_type, Keeps-field_read_internal) depth 60

  pub Keeps-field_sizev : (p : HandlePointer) (name : Option Text) → Keeps P (field_sizev p name)
  unfolding field_sizev
  Keeps-field_sizev p name = search (query_rules) depth 60

  pub Keeps-plane_read :
      (t : ElementType) (p : HandlePointer) (name : Option Text) (elements : Bool) (b a : ℤ)
      → Keeps P (plane_read t p name elements b a)
  unfolding plane_read
  Keeps-plane_read t p name elements b a = search (error_rules, Keeps-plane_read_internal) depth 60

  pub Keeps-plane_readv :
      (t : ElementType) (p : HandlePointer) (name : Option Text) (elements : Bool) (b a n : ℤ)
      → Keeps P (plane_readv t p name elements b a n)
  unfolding plane_readv
  Keeps-plane_readv t p name elements b a n =
      search (query_rules, Keeps-conforms, Keeps-close_type, Keeps-plane_read_internal) depth 60

  pub Keeps-plane_sizev : (p : HandlePointer) (name : Option Text) → Keeps P (plane_sizev p name)
  unfolding plane_sizev
  Keeps-plane_sizev p name = search (query_rules) depth 60

  pub Keeps-line_read :
      (t : ElementType) (p : HandlePointer) (name : Option Text) (elements : Bool) (a : ℤ)
      → Keeps P (line_read t p name elements a)
  unfolding line_read
  Keeps-line_read t p name elements a = search (error_rules, Keeps-line_read_internal) depth 60

  pub Keeps-line_readv :
      (t : ElementType) (p : HandlePointer) (name : Option Text) (elements : Bool) (a n : ℤ)
      → Keeps P (line_readv t p name elements a n)
  unfolding line_readv
  Keeps-line_readv t p name elements a n =
      search (query_rules, Keeps-conforms, Keeps-close_type, Keeps-line_read_internal) depth 60

  pub Keeps-line_sizev : (p : HandlePointer) (name : Option Text) → Keeps P (line_sizev p name)
  unfolding line_sizev
  Keeps-line_sizev p name = search (query_rules) depth 60

  pub Keeps-attribute_read :
      (p : HandlePointer) (loc name : Option Text) (value : Bool)
      → Keeps P (attribute_read p loc name value)
  unfolding attribute_read
  Keeps-attribute_read p loc name value = search (error_rules, Keeps-attribute_readv) depth 60

  pub Keeps-attribute_write :
      (p : HandlePointer) (loc name : Option Text) (value : Option (List ℤ))
      → Keeps P (attribute_write p loc name value)
  unfolding attribute_write
  Keeps-attribute_write p loc name value = search (error_rules, Keeps-attribute_writev) depth 60

module _ {P : Handle → Type 0} (ignores : IgnoresChunks P) where
  pub Keeps-field_write :
      (t : ElementType) (p : HandlePointer) (name : Option Text) (elements : Bool) (c b a : ℤ)
      (comment : Option Text)
      → Keeps P (field_write t p name elements c b a comment)
  unfolding field_write
  Keeps-field_write t p name elements c b a comment =
      search (error_rules, Keeps-field_write_internal ignores) depth 60

  pub Keeps-field_writev :
      (t : ElementType) (p : HandlePointer) (name : Option Text) (elements : Bool) (c b a n : ℤ)
      (comment : Option Text)
      → Keeps P (field_writev t p name elements c b a n comment)
  unfolding field_writev
  Keeps-field_writev t p name elements c b a n comment =
      search (query_rules, Keeps-field_write_internal ignores) depth 60

  pub Keeps-plane_write :
      (t : ElementType) (p : HandlePointer) (name : Option Text) (elements : Bool) (b a : ℤ)
      (comment : Option Text)
      → Keeps P (plane_write t p name elements b a comment)
  unfolding plane_write
  Keeps-plane_write t p name elements b a comment =
      search (error_rules, Keeps-plane_write_internal ignores) depth 60

  pub Keeps-plane_writev :
      (t : ElementType) (p : HandlePointer) (name : Option Text) (elements : Bool) (b a n : ℤ)
      (comment : Option Text)
      → Keeps P (plane_writev t p name elements b a n comment)
  unfolding plane_writev
  Keeps-plane_writev t p name elements b a n comment =
      search (query_rules, Keeps-plane_write_internal ignores) depth 60

  pub Keeps-line_write :
      (t : ElementType) (p : HandlePointer) (name : Option Text) (elements : Bool) (a : ℤ)
      (comment : Option Text)
      → Keeps P (line_write t p name elements a comment)
  unfolding line_write
  Keeps-line_write t p name elements a comment =
      search (error_rules, Keeps-line_write_internal ignores) depth 60

  pub Keeps-line_writev :
      (t : ElementType) (p : HandlePointer) (name : Option Text) (elements : Bool) (a n : ℤ)
      (comment : Option Text)
      → Keeps P (line_writev t p name elements a n comment)
  unfolding line_writev
  Keeps-line_writev t p name elements a n comment =
      search (query_rules, Keeps-line_write_internal ignores) depth 60
