-- ===== src/Ext/Help.antt =====
-- comon/cohelp.cpp: the text of `!cohelp`, in the parts that the command prints.
use comon.Base.{ℕ, ◌++◌, List, [], ◌∷◌, Text, codes, decimal_text}

abbrev rule : Text
rule = codes "==============================================================\n"

-- the lines of the text behind the title
abbrev pub help_lines : List Text
help_lines =
    codes "Available commands:\n"
    ∷ codes "\n"
    ∷ codes "  !cometa index\n"
    ∷ codes "      - indexes COM metadata found in the system (registered type libraries, CLSIDs,\n"
    ∷ codes
        "        and interfaces). The results are saved to a cometa.db3 file in the user temporary\n"
    ∷ codes "        folder. They should be automatically loaded on the next run.\n"
    ∷ codes "  !cometa index <path_to_tlb_or_dll_file>\n"
    ∷ codes
        "      - indexes COM metadata from the provided TLB or DLL file. The results are saved\n"
    ∷ codes
        "        to a cometa.db3 file in the user temporary folder. They should be automatically\n"
    ∷ codes "        loaded on the next run.\n"
    ∷ codes "\n"
    ∷ codes "  !cometa showi <iid>\n"
    ∷ codes
        "      - shows information about a given IID (COM interface ID). This command will show\n"
    ∷ codes "        interface methods (if available) and virtual tables registered for this IID.\n"
    ∷ codes "  !cometa showc <clsid>\n"
    ∷ codes "      - shows virtual tables registered for a given CLSID (COM class ID)\n"
    ∷ codes "  !cometa showm <module_name>\n"
    ∷ codes "      - shows virtual tables registered for a given module (DLL or EXE file)\n"
    ∷ codes "\n"
    ∷ codes "  !comon attach [[-i|-e] {clsid1} {clsid2} ...]\n"
    ∷ codes
        "      - starts COM monitor for the active process. If you're debugging a 32-bit WOW64\n"
    ∷ codes
        "        process in a 64-bit debugger, make sure you set the effective CPU architecture to x86\n"
    ∷ codes
        "        (.effmach x86), use -i to configure an including filter (monitors only the provided CLSIDs)\n"
    ∷ codes
        "        or -e to configure an excluding filter (monitors all CLSIDs except for the provided ones)\n"
    ∷ codes "  !comon detach\n"
    ∷ codes "      - stops COM monitor for the active process.\n"
    ∷ codes "  !comon pause\n"
    ∷ codes "      - pauses COM monitoring for the active process.\n"
    ∷ codes "  !comon resume\n"
    ∷ codes "      - resumes COM monitoring for the active process.\n"
    ∷ codes "  !comon status\n"
    ∷ codes
        "      - shows the current monitoring status. It also lists all the virtual tables registered\n"
    ∷ codes "        for a given process providing their IIDs and CLSIDs\n"
    ∷ codes "\n"
    ∷ codes
        "  !cobp [--before|--after|--always|--trace-only] <clsid> <iid> <method_name|method_number>\n"
    ∷ codes
        "      - sets a cobreakpoint (COM breakpoint) on a given COM method. When you create a cobreakpoint,\n"
    ∷ codes
        "        comon will print the parameter values and return value of the method (if metadata is available).\n"
    ∷ codes
        "        Additionally, the cobreakpoint can make the debugger stop before (--before), after (--after), or\n"
    ∷ codes
        "        before and after (--always) the method is called. If you only want to see the parameter values,\n"
    ∷ codes
        "        use the --trace-only option. To remove a cobreakpoint, use the bc with the cobreakpoint ID.\n"
    ∷ codes "\n"
    ∷ codes "  !coreg [--force] [--nosave] <clsid> <iid> <vtable_address>\n"
    ∷ codes "      - manually add a virtual table address to the COM monitor and bind them with\n"
    ∷ codes "        a given COM interface (IID) and COM class (CLSID). If the --force option is\n"
    ∷ codes
        "        provided, the virtual table will be added even if it's already registered. If\n"
    ∷ codes "        the --nosave option is provided, the virtual table will not be saved to the\n"
    ∷ codes "        cometa.db3 file.\n"
    ∷ codes "==============================================================\n"
    ∷ []

abbrev join : List Text → Text
join [] = []
join (l ∷ ls) = l ++ join ls

-- the numbers of the version come from the build
unfoldable pub cohelp : ℕ → ℕ → ℕ → ℕ → Text
cohelp major minor patch tweak =
    rule
    ++ codes " comon v"
    ++ decimal_text major
    ++ codes "."
    ++ decimal_text minor
    ++ codes "."
    ++ decimal_text patch
    ++ codes "."
    ++ decimal_text tweak
    ++ codes " - Copyright 2023 Sebastian Solnica\n"
    ++ rule
    ++ codes "\n"
    ++ join help_lines
