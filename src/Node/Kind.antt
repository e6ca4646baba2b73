-- ===== src/Node/Kind.antt =====
-- `cmark_node_type`: the upper two bits tell a block from an inline.
use Prim.Native.Nat.{ℕ}

abbrev pub document : ℕ
document = 32769

abbrev pub block_quote : ℕ
block_quote = 32770

abbrev pub list : ℕ
list = 32771

abbrev pub item : ℕ
item = 32772

abbrev pub code_block : ℕ
code_block = 32773

abbrev pub html_block : ℕ
html_block = 32774

abbrev pub custom_block : ℕ
custom_block = 32775

abbrev pub paragraph : ℕ
paragraph = 32776

abbrev pub heading : ℕ
heading = 32777

abbrev pub thematic_break : ℕ
thematic_break = 32778

abbrev pub footnote_definition : ℕ
footnote_definition = 32779

abbrev pub text : ℕ
text = 49153

abbrev pub softbreak : ℕ
softbreak = 49154

abbrev pub linebreak : ℕ
linebreak = 49155

abbrev pub code : ℕ
code = 49156

abbrev pub html_inline : ℕ
html_inline = 49157

abbrev pub custom_inline : ℕ
custom_inline = 49158

abbrev pub emph : ℕ
emph = 49159

abbrev pub strong : ℕ
strong = 49160

abbrev pub link : ℕ
link = 49161

abbrev pub image : ℕ
image = 49162

abbrev pub footnote_reference : ℕ
footnote_reference = 49163

abbrev pub attribute : ℕ
attribute = 49164
